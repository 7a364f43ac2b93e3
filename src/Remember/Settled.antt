-- ===== src/Remember/Settled.antt =====
-- What an answer of `remember` accounts for: tools/remember.rs over repo/write.rs.
use agmem.Prelude.{
  among, Distinct, ℕ, suc, ◌+◌, ◌≡◌, refl, sym, subst, ◌∙◌, true, false, not, some, List, [], ◌∷◌,
  ◌++◌, length, get_elem?, arith, All, length-append, ◌==◌, keep_if,
}
use agmem.Model.{Text, MemoryId}
use agmem.Service.{done}
use agmem.Float.{Float}
use agmem.Store.{Batch, BatchOutcome, Written, created, duplicate, got}
use agmem.Store.Insert.{Engine, insert_batch}
use agmem.Store.Retry.{insert_batch-Decides}
use agmem.Store.Closures.{batch_closes}
use agmem.Remember.{Duplicate}
use agmem.Remember.Accounts.{any-append}
use agmem.Remember.Request.{covered, Diff, account, diff}

-- The claims that no duplicate stands for.
abbrev pub uncovered : {F : Type 0} → List (Duplicate F) → List ℕ → List ℕ
uncovered duplicates places = keep_if (λ i. not (covered duplicates i)) places

pub batch_reports :
    {F Time : Type 0} (engine : ℕ → Engine F Time) (batch : Batch F Time) (outcome : BatchOutcome)
    → insert_batch engine batch ≡ got outcome
    → length outcome.memories ≡ length batch.memories
batch_reports engine batch outcome h =
    let (n, low, high, same, before, last) = insert_batch-Decides engine batch in
    (batch_closes (engine n) batch outcome (sym same ∙ h)).0

module _ {F : Type 0} where
  abbrev pub Open : List (Duplicate F) → List ℕ → Type 0
  Open duplicates places = All (λ k. covered duplicates k ≡ false) places

  Open-append :
      (ds : List (Duplicate F)) (d : Duplicate F) (ks : List ℕ)
      → among ks d.of ≡ false
      → Open ds ks
      → Open (ds ++ d ∷ []) ks
  Open-append ds d [] h o = tt
  Open-append ds d (k ∷ ks) h o = (
    ground (arith, any-append (λ (x : Duplicate F). x.of == k) ds (d ∷ []), h, o.0),
    Open-append ds d ks (ground (arith, h)) o.1,
  )

module _ (fl : Float) where
  open fl use {F}

  diff_step :
      (kept : List ℕ) (sent : List Text) (p k : ℕ) (w : Written MemoryId)
      (ws : List (Written MemoryId)) (d : Diff F)
      → get_elem? kept p ≡ some k
      → diff fl kept sent p (w ∷ ws) d ≡ diff fl kept sent (suc p) ws (account fl sent k w d)
  unfolding diff
  diff_step kept sent p k w ws d h = rw (h, diff) refl

  -- The counts after the reports of the places `ks`, and the places left alone.
  abbrev pub Counts : List ℕ → Diff F → Diff F → Type 0
  Counts ks d e =
      (length e.created ≡ length d.created + length (uncovered e.duplicates ks))
      × ((i : ℕ) → among ks i ≡ false → covered e.duplicates i ≡ covered d.duplicates i)

  counts_step :
      (sent : List Text) (k : ℕ) (ks : List ℕ) (w : Written MemoryId) (d e : Diff F)
      → among ks k ≡ false
      → covered d.duplicates k ≡ false
      → Counts ks (account fl sent k w d) e
      → Counts (k ∷ ks) d e
  counts_step sent k ks (created id) d e h o (n, frame) =
      let here : covered e.duplicates k ≡ false = frame k h ∙ o in
      (
        rw here (omega (arith, n, length-append d.created (id ∷ []))),
        λ i out. frame i (ground (arith, out)),
      )
  counts_step sent k ks (duplicate id) d e h o (n, frame) =
      let old = any-append (λ (x : Duplicate F). x.of == k) d.duplicates _ in
      let here : covered e.duplicates k ≡ true = frame k h ∙ old ∙ ground (arith, o) in
      (
        rw here n,
        λ i out.
            frame i (ground (arith, out))
            ∙ any-append (λ (x : Duplicate F). x.of == i) d.duplicates _
            ∙ ground (arith, out),
      )

  account-Open :
      (sent : List Text) (k : ℕ) (ks : List ℕ) (w : Written MemoryId) (d : Diff F)
      → among ks k ≡ false
      → Open d.duplicates ks
      → Open (account fl sent k w d).duplicates ks
  account-Open sent k ks (created id) d h o = o
  account-Open sent k ks (duplicate id) d h o = Open-append d.duplicates _ ks h o

  -- The reports of the places `ks`, none of which a duplicate stands for yet.
  pub diff_counts :
      (kept : List ℕ) (sent : List Text) (p : ℕ) (ks : List ℕ) (ws : List (Written MemoryId))
      (d e : Diff F)
      → ((i : ℕ) → get_elem? kept (p + i) ≡ get_elem? ks i)
      → length ws ≡ length ks
      → Distinct ks
      → Open d.duplicates ks
      → diff fl kept sent p ws d ≡ done e
      → Counts ks d e
  unfolding diff
  diff_counts kept sent p [] [] d e at l dis o h =
      let same : d ≡ e = cc in subst (Counts [] d) same (omega arith, λ i out. refl)
  diff_counts kept sent p [] (w ∷ ws) d e at l dis o h = absurd (omega arith)
  diff_counts kept sent p (k ∷ ks) [] d e at l dis o h = absurd (omega arith)
  diff_counts kept sent p (k ∷ ks) (w ∷ ws) d e at l dis o h =
      let here : get_elem? kept p ≡ some k =
        subst (λ n. get_elem? kept n ≡ some k) (omega arith) (at 0) in
      counts_step sent k ks w d e dis.0 o.0 (
        diff_counts kept sent (suc p) ks ws (account fl sent k w d) e
          (λ i. subst (λ n. get_elem? kept n ≡ get_elem? ks i) (omega arith) (at (suc i)))
          (omega (arith, l)) dis.1 (account-Open sent k ks w d dis.0 o.1)
          (sym (diff_step kept sent p k w ws d here) ∙ h))
