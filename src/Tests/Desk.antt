-- ===== src/Tests/Desk.antt =====
-- A sidecar with a store, a JSON of its own and a forest of one tree.
use rate_limiter.Base.{
  ◌-◌, ◌↔◌, Option-cases, ℕ, zero, suc, ◌+◌, ◌≡◌, refl, ap, Bool, true, false, Option, none, some,
  List, [], ◌∷◌, ◌++◌, Bytes, bytes_eq, bytes_eq_sound, bytes_eq_refl, codes, Bool-cases, inl, inr,
  ltb, if◌then◌else◌, length, arith,
}
use rate_limiter.Base.Int.{ℤ, pos, negsuc}
use rate_limiter.Float.{Float, nan, inf, fin}
use rate_limiter.Sidecar.Runtime.{Runtime, IsLawful}
use rate_limiter.Sidecar.Bounds.{IsNumeric}

-- A number, and the mark at the end of a row, are two tokens.
unfoldable pub write_float : Float → Bytes
write_float nan = 0 ∷ 0 ∷ []
write_float (inf true) = 1 ∷ 0 ∷ []
write_float (inf false) = 1 ∷ 1 ∷ []
write_float (fin (pos n)) = 2 ∷ n ∷ []
write_float (fin (negsuc n)) = 3 ∷ n ∷ []

unfoldable pub write_row : List Float → Bytes
write_row [] = 4 ∷ 0 ∷ []
write_row (x ∷ xs) = write_float x ++ write_row xs

unfoldable pub write_rows : List (List Float) → Bytes
write_rows [] = []
write_rows (r ∷ rs) = write_row r ++ write_rows rs

unfoldable pub put : Float → List (List Float) → List (List Float)
put x [] = (x ∷ []) ∷ []
put x (r ∷ rs) = (x ∷ r) ∷ rs

unfoldable pub read_token : ℕ → ℕ → List (List Float) → List (List Float)
read_token zero n rs = put nan rs
read_token (suc zero) zero rs = put (inf true) rs
read_token (suc zero) (suc n) rs = put (inf false) rs
read_token (suc (suc zero)) n rs = put (fin (pos n)) rs
read_token (suc (suc (suc zero))) n rs = put (fin (negsuc n)) rs
read_token (suc (suc (suc (suc k)))) n rs = [] ∷ rs

unfoldable pub read_rows : Bytes → List (List Float)
read_rows [] = []
read_rows (k ∷ []) = []
read_rows (k ∷ n ∷ ts) = read_token k n (read_rows ts)

read-write_row : (r : List Float) (ts : Bytes) → read_rows (write_row r ++ ts) ≡ r ∷ read_rows ts
unfolding read_rows write_row write_float read_token put
read-write_row [] ts = refl
read-write_row (nan ∷ xs) ts = ap (put nan) (read-write_row xs ts)
read-write_row (inf true ∷ xs) ts = ap (put (inf true)) (read-write_row xs ts)
read-write_row (inf false ∷ xs) ts = ap (put (inf false)) (read-write_row xs ts)
read-write_row (fin (pos n) ∷ xs) ts = ap (put (fin (pos n))) (read-write_row xs ts)
read-write_row (fin (negsuc n) ∷ xs) ts = ap (put (fin (negsuc n))) (read-write_row xs ts)

read-write_rows : (rs : List (List Float)) → read_rows (write_rows rs) ≡ rs
unfolding read_rows write_rows
read-write_rows [] = refl
read-write_rows (r ∷ rs) = rw (read-write_row r (write_rows rs), read-write_rows rs) refl

unfoldable pub dump_tree : Bool → Bytes
dump_tree true = codes "forest"
dump_tree false = codes "none"

load-dump_tree : (m : Bool) → bytes_eq (dump_tree m) (codes "forest") ≡ m
unfolding dump_tree bytes_eq
load-dump_tree true = refl
load-dump_tree false = refl

abbrev pub Store : Type 0
Store = Bytes → Option (Bytes × ℕ)

unfoldable pub store_get : Store → ℕ → Bytes → Option Bytes
store_get s at k = elim (s k) [ none ↦ none | some (v, e) ↦ if ltb at e then some v else none ]

unfoldable pub store_set : Store → ℕ → Bytes → ℕ → Bytes → Store
store_set s clock k ttl v j = if bytes_eq j k then some (v, clock + ttl) else s j

unfoldable pub store_exists : Store → ℕ → Bytes → Bool
store_exists s at k = elim (s k) [ none ↦ false | some (v, e) ↦ ltb at e ]

unfoldable pub store_ttl : Store → ℕ → Bytes → ℤ
store_ttl s at k = elim (s k) [
  | none ↦ negsuc 1
  | some (v, e) ↦ if ltb at e then pos (e - at) else negsuc 1
]

store_exists_iff :
    (s : Store) (at : ℕ) (k : Bytes) → (store_exists s at k ≡ false) ↔ (store_get s at k ≡ none)
unfolding store_exists store_get
store_exists_iff s at k = elim (Option-cases (s k)) [
  | inl absent ↦ rw (absent, store_exists, store_get) (λ h. refl, λ h. refl)
  | inr ((v, e), there) ↦ rw (there, store_exists, store_get) (λ h. ground arith, λ h. ground arith)
]

-- A forest is the number that it gives to everything; 4 marks the texts that are sequences.
abbrev pub desk : Float → Runtime
desk raw = record {
  State = Store;
  get = store_get;
  setex = store_set;
  exists = store_exists;
  ttl = store_ttl;
  characters = length;
  parse_float = λ t. none;
  Forest = Bool;
  joblib_load = λ b. some (bytes_eq b (codes "forest"));
  joblib_dump = dump_tree;
  train = λ vs. true;
  decision_function = λ m v. some raw;
  baseline = some true;
  Session = Unit {0};
  session = none;
  run = λ m vs. some raw;
  dumps = λ rs. 4 ∷ 0 ∷ write_rows rs;
  loads = λ b. elim (read_rows b) [ [] ↦ none | r ∷ rs ↦ some rs ];
  model_version = codes "v1";
}

pub desk-IsLawful : (raw : Float) → IsLawful (desk raw)
unfolding store_get store_set store_ttl read_rows read_token
desk-IsLawful raw = record {
  get-setex_own = λ s clock at k ttl v le soon.
      let h : ltb at (clock + ttl) ≡ true = ground arith in
      rw (bytes_eq_refl k, store_set, store_get, h) refl;
  get-setex_over = λ s clock at k ttl v late.
      let h : ltb at (clock + ttl) ≡ false = ground arith in
      rw (bytes_eq_refl k, store_set, store_get, h) refl;
  get-setex_other = λ s clock at j k ttl v apart. elim (Bool-cases (bytes_eq j k)) [
    | inl same ↦ absurd (apart (bytes_eq_sound j k same))
    | inr other ↦ rw (other, store_set, store_get) refl
  ];
  exists_iff = store_exists_iff;
  ttl-setex_own = λ s clock at k ttl v le soon.
      let h : ltb at (clock + ttl) ≡ true = ground arith in
      rw (bytes_eq_refl k, store_set, store_ttl, h) refl;
  ttl-setex_other = λ s clock at j k ttl v apart. elim (Bool-cases (bytes_eq j k)) [
    | inl same ↦ absurd (apart (bytes_eq_sound j k same))
    | inr other ↦ rw (other, store_set, store_ttl) refl
  ];
  joblib_load-dump = λ m. ap some (load-dump_tree m);
  loads-dumps = λ rs. ap some (read-write_rows rs);
  dumps_text = λ rs. omega arith;
}

pub desk-IsNumeric : (n : ℕ) → IsNumeric (desk (fin (negsuc n)))
desk-IsNumeric n = record { forest_number = λ m v x h e. cc; session_number = λ m v x h e. cc }
