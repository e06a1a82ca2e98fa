-- ===== src/Core/Suite/Ids.antt =====
-- crates/ort-core/src/suite/ids.rs.
use ort.Prelude.{ℕ, ◌≡◌, ◌↔◌, Option, none, some, ◌==◌, if◌then◌else◌, arith}

pub data SuiteId : Type 0 where
  v1_ml_kem768_ml_dsa65 : SuiteId

unfoldable pub code : SuiteId → ℕ
code v1_ml_kem768_ml_dsa65 = 0x0001

unfoldable pub from_code : ℕ → Option SuiteId
from_code c = if c == 0x0001 then some v1_ml_kem768_ml_dsa65 else none

-- A wire code decodes to a suite exactly when it is that suite's code.
pub from_code-code : (c : ℕ) (s : SuiteId) → (from_code c ≡ some s) ↔ (c ≡ code s)
unfolding from_code code
from_code-code c v1_ml_kem768_ml_dsa65 = ground arith
