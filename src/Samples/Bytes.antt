-- ===== src/Samples/Bytes.antt =====
-- Bytes of a fixed number, for stand-ins of digests and signatures.
use auditable_mcp_sdk_ts.Base.{ℕ, zero, suc, ◌%◌, ◌≡◌, refl, arith, List, [], ◌∷◌, length}
use auditable_mcp_sdk_ts.Crypto.Base64.Laws.{AllBelow, none_below, also_below}

abbrev pub low_byte : ℕ → ℕ
low_byte n = n % 256

abbrev pub fit : ℕ → List ℕ → List ℕ
fit zero ns = []
fit (suc k) [] = 0 ∷ fit k []
fit (suc k) (n ∷ ns) = low_byte n ∷ fit k ns

pub fit-below : (k : ℕ) (ns : List ℕ) → AllBelow 256 (fit k ns)
fit-below zero ns = none_below
fit-below (suc k) [] = also_below (omega arith) (fit-below k [])
fit-below (suc k) (n ∷ ns) = also_below (omega arith) (fit-below k ns)

pub length-fit : (k : ℕ) (ns : List ℕ) → length (fit k ns) ≡ k
length-fit zero ns = refl
length-fit (suc k) [] = omega (arith, length-fit k [])
length-fit (suc k) (n ∷ ns) = omega (arith, length-fit k ns)
