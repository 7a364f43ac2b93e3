-- ===== src/Model/Enums.antt =====
-- The spellings of the domain's enums, `as_str` and `from_str` of crates/agmem-core/src/model.rs.
use agmem.Prelude.{
  String, ◌≡◌, refl, ◌↔◌, Option, none, some, List, [], ◌∷◌, arith, str_eq, eq_iff, if◌then◌else◌,
}
use agmem.Model.{
  unknown_variant, Result, ok, err, Kind, fact, lesson, instruction, summary, DocKind, plan, review,
  report, probe, transcript, other, DecayClass, pinned, slow, normal, fast, InvalidReason,
  superseded, forgotten, expired,
}

unfoldable pub kind_as_str : Kind → String
kind_as_str fact = "fact"
kind_as_str lesson = "lesson"
kind_as_str instruction = "instruction"
kind_as_str summary = "summary"

unfoldable pub kind_from_str : String → Result Kind
kind_from_str s =
    if str_eq s "fact"
    then ok fact
    else if str_eq s "lesson"
    then ok lesson
    else if str_eq s "instruction"
    then ok instruction
    else if str_eq s "summary"
    then ok summary
    else err (unknown_variant "kind" s)

unfoldable pub doc_kind_as_str : DocKind → String
doc_kind_as_str plan = "plan"
doc_kind_as_str review = "review"
doc_kind_as_str report = "report"
doc_kind_as_str probe = "probe"
doc_kind_as_str transcript = "transcript"
doc_kind_as_str other = "other"

abbrev pub all_doc_kinds : List DocKind
all_doc_kinds = plan ∷ review ∷ report ∷ probe ∷ transcript ∷ other ∷ []

-- `ALL.into_iter().find(|kind| kind.as_str() == s)`
find_doc_kind : String → List DocKind → Option DocKind
find_doc_kind s [] = none
find_doc_kind s (kind ∷ kinds) =
    if str_eq (doc_kind_as_str kind) s then some kind else find_doc_kind s kinds

unfoldable pub doc_kind_from_str : String → Result DocKind
unfolding find_doc_kind
doc_kind_from_str s = elim (find_doc_kind s all_doc_kinds) [
  | some kind ↦ ok kind
  | none ↦ err (unknown_variant "doc_kind" s)
]

unfoldable pub decay_class_as_str : DecayClass → String
decay_class_as_str pinned = "pinned"
decay_class_as_str slow = "slow"
decay_class_as_str normal = "normal"
decay_class_as_str fast = "fast"

unfoldable pub decay_class_from_str : String → Result DecayClass
decay_class_from_str s =
    if str_eq s "pinned"
    then ok pinned
    else if str_eq s "slow"
    then ok slow
    else if str_eq s "normal"
    then ok normal
    else if str_eq s "fast"
    then ok fast
    else err (unknown_variant "decay class" s)

unfoldable pub reason_as_str : InvalidReason → String
reason_as_str superseded = "superseded"
reason_as_str forgotten = "forgotten"
reason_as_str expired = "expired"

unfoldable pub reason_from_str : String → Result InvalidReason
reason_from_str s =
    if str_eq s "superseded"
    then ok superseded
    else if str_eq s "forgotten"
    then ok forgotten
    else if str_eq s "expired"
    then ok expired
    else err (unknown_variant "invalid reason" s)

kind_reads : (k : Kind) → kind_from_str (kind_as_str k) ≡ ok k
unfolding kind_as_str kind_from_str
kind_reads fact = refl
kind_reads lesson = refl
kind_reads instruction = refl
kind_reads summary = refl

kind_only : (s : String) (k : Kind) → kind_from_str s ≡ ok k → s ≡ kind_as_str k
unfolding kind_as_str kind_from_str
kind_only s fact h =
    ground (arith, eq_iff s "fact", eq_iff s "lesson", eq_iff s "instruction", eq_iff s "summary")
kind_only s lesson h =
    ground (arith, eq_iff s "fact", eq_iff s "lesson", eq_iff s "instruction", eq_iff s "summary")
kind_only s instruction h =
    ground (arith, eq_iff s "fact", eq_iff s "lesson", eq_iff s "instruction", eq_iff s "summary")
kind_only s summary h =
    ground (arith, eq_iff s "fact", eq_iff s "lesson", eq_iff s "instruction", eq_iff s "summary")

kind_exact : (s : String) (k : Kind) → (kind_from_str s ≡ ok k) ↔ (s ≡ kind_as_str k)
kind_exact s k = (kind_only s k, λ e. rw e (kind_reads k))

doc_kind_reads : (d : DocKind) → doc_kind_from_str (doc_kind_as_str d) ≡ ok d
unfolding doc_kind_as_str doc_kind_from_str
doc_kind_reads plan = refl
doc_kind_reads review = refl
doc_kind_reads report = refl
doc_kind_reads probe = refl
doc_kind_reads transcript = refl
doc_kind_reads other = refl

doc_kind_only : (s : String) (d : DocKind) → doc_kind_from_str s ≡ ok d → s ≡ doc_kind_as_str d
unfolding doc_kind_as_str doc_kind_from_str
doc_kind_only s plan h = ground (
  arith,
  eq_iff "plan" s,
  eq_iff "review" s,
  eq_iff "report" s,
  eq_iff "probe" s,
  eq_iff "transcript" s,
  eq_iff "other" s,
)
doc_kind_only s review h = ground (
  arith,
  eq_iff "plan" s,
  eq_iff "review" s,
  eq_iff "report" s,
  eq_iff "probe" s,
  eq_iff "transcript" s,
  eq_iff "other" s,
)
doc_kind_only s report h = ground (
  arith,
  eq_iff "plan" s,
  eq_iff "review" s,
  eq_iff "report" s,
  eq_iff "probe" s,
  eq_iff "transcript" s,
  eq_iff "other" s,
)
doc_kind_only s probe h = ground (
  arith,
  eq_iff "plan" s,
  eq_iff "review" s,
  eq_iff "report" s,
  eq_iff "probe" s,
  eq_iff "transcript" s,
  eq_iff "other" s,
)
doc_kind_only s transcript h = ground (
  arith,
  eq_iff "plan" s,
  eq_iff "review" s,
  eq_iff "report" s,
  eq_iff "probe" s,
  eq_iff "transcript" s,
  eq_iff "other" s,
)
doc_kind_only s other h = ground (
  arith,
  eq_iff "plan" s,
  eq_iff "review" s,
  eq_iff "report" s,
  eq_iff "probe" s,
  eq_iff "transcript" s,
  eq_iff "other" s,
)

doc_kind_exact : (s : String) (d : DocKind) → (doc_kind_from_str s ≡ ok d) ↔ (s ≡ doc_kind_as_str d)
doc_kind_exact s d = (doc_kind_only s d, λ e. rw e (doc_kind_reads d))

decay_class_reads : (c : DecayClass) → decay_class_from_str (decay_class_as_str c) ≡ ok c
unfolding decay_class_as_str decay_class_from_str
decay_class_reads pinned = refl
decay_class_reads slow = refl
decay_class_reads normal = refl
decay_class_reads fast = refl

decay_class_only :
    (s : String) (c : DecayClass) → decay_class_from_str s ≡ ok c → s ≡ decay_class_as_str c
unfolding decay_class_as_str decay_class_from_str
decay_class_only s pinned h =
    ground (arith, eq_iff s "pinned", eq_iff s "slow", eq_iff s "normal", eq_iff s "fast")
decay_class_only s slow h =
    ground (arith, eq_iff s "pinned", eq_iff s "slow", eq_iff s "normal", eq_iff s "fast")
decay_class_only s normal h =
    ground (arith, eq_iff s "pinned", eq_iff s "slow", eq_iff s "normal", eq_iff s "fast")
decay_class_only s fast h =
    ground (arith, eq_iff s "pinned", eq_iff s "slow", eq_iff s "normal", eq_iff s "fast")

decay_class_exact :
    (s : String) (c : DecayClass) → (decay_class_from_str s ≡ ok c) ↔ (s ≡ decay_class_as_str c)
decay_class_exact s c = (decay_class_only s c, λ e. rw e (decay_class_reads c))

reason_reads : (r : InvalidReason) → reason_from_str (reason_as_str r) ≡ ok r
unfolding reason_as_str reason_from_str
reason_reads superseded = refl
reason_reads forgotten = refl
reason_reads expired = refl

reason_only : (s : String) (r : InvalidReason) → reason_from_str s ≡ ok r → s ≡ reason_as_str r
unfolding reason_as_str reason_from_str
reason_only s superseded h =
    ground (arith, eq_iff s "superseded", eq_iff s "forgotten", eq_iff s "expired")
reason_only s forgotten h =
    ground (arith, eq_iff s "superseded", eq_iff s "forgotten", eq_iff s "expired")
reason_only s expired h =
    ground (arith, eq_iff s "superseded", eq_iff s "forgotten", eq_iff s "expired")

reason_exact : (s : String) (r : InvalidReason) → (reason_from_str s ≡ ok r) ↔ (s ≡ reason_as_str r)
reason_exact s r = (reason_only s r, λ e. rw e (reason_reads r))

-- For each of the four enums a text parses to a value exactly when it is that value's spelling.
pub from_str_exact :
    (s : String) (k : Kind) (d : DocKind) (c : DecayClass) (r : InvalidReason)
    → ((kind_from_str s ≡ ok k) ↔ (s ≡ kind_as_str k))
      × ((doc_kind_from_str s ≡ ok d) ↔ (s ≡ doc_kind_as_str d))
      × ((decay_class_from_str s ≡ ok c) ↔ (s ≡ decay_class_as_str c))
      × ((reason_from_str s ≡ ok r) ↔ (s ≡ reason_as_str r))
from_str_exact s k d c r =
    (kind_exact s k, doc_kind_exact s d, decay_class_exact s c, reason_exact s r)
