-- ===== src/Api/Response.antt =====
-- HTTP answers with a JSON body: a payload, or an error message (`none` is the body null).
use canonizr_hda.Prelude.{ℕ, Text, Option}

pub data Response (A : Type 0) : Type 0 where
  json : ℕ → A → Response A
  failed : ℕ → Option Text → Response A
