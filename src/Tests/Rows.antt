-- ===== src/Tests/Rows.antt =====
-- Rows and a service that the tests share.
use agmem.Prelude.{ℕ, String, none, [], ◌∷◌}
use agmem.Model.{MemoryRecord, fact, agent, normal}
use agmem.Service.{Service, done, failed, internal}
use agmem.Tests.Fixed.{Fixed, at}

abbrev pub claim : String → MemoryRecord Fixed ℕ
claim id = record {
  id = id;
  space = "work";
  kind = fact;
  content = [];
  content_hash = "";
  entities = [];
  tags = [];
  embedding = none;
  decay_class = normal;
  strength = at 1000;
  last_accessed = 0;
  access_count = 0;
  valid_from = 0;
  invalid_at = none;
  invalid_reason = none;
  supersedes = [];
  superseded_by = none;
  source = agent;
  writer = none;
  novelty = none;
  derived_from = [];
  created_at = 0;
}

abbrev pub service : Service Fixed ℕ
service = record {
  space = "work";
  pool = 64;
  all_spaces = done ("work" ∷ "user" ∷ []);
  dim = 0;
  embed = λ text. failed (internal "no embedder");
  direct_lookup = λ l. done (claim "A" ∷ []);
  search_hybrid = λ s. done [];
}
