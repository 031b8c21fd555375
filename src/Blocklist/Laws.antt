-- ===== src/Blocklist/Laws.antt =====
-- What `Add`, `Remove` and the handlers of the block list do to the map.
use rate_limiter.Base.{
  ℕ, ◌<◌, ◌≡◌, ◌≢◌, ◌⊎◌, refl, none, some, [], ◌∷◌, Bytes, bytes_eq_refl, Bool, true, false, inl,
  inr, Result, Result-cases, Option-cases, ok, err, length, ap, ◌∙◌, arith,
}
use rate_limiter.Net.{Endian, little, big, host_u32, put_be_u32, be_u32, print_ipv4}
use rate_limiter.Bpf.{BpfMap, IsLawful}
use rate_limiter.Loader.Address.{ip_to_uint32}
use rate_limiter.Loader.RoundTrip.{ip_to_uint32-print_ipv4}
use rate_limiter.Blocklist.{
  BlocklistError, Answer, done, bad_ip, map_error, ip_to_key, Blocklist, add, remove, handle_block,
  handle_unblock,
}

-- The block list and the loader read the same addresses, and the key of the block list is the
-- loader's number in big-endian bytes.
pub ip_to_key-ip_to_uint32 :
    (s : Bytes) (n : ℕ) → ip_to_uint32 s ≡ ok n → ip_to_key s ≡ ok (put_be_u32 n)
unfolding ip_to_key ip_to_uint32
ip_to_key-ip_to_uint32 s n h = ground arith

put_be_u32-be_u32 :
    (a b c d : ℕ)
    → a < 256
    → b < 256
    → c < 256
    → d < 256
    → put_be_u32 (be_u32 (a ∷ b ∷ c ∷ d ∷ [])) ≡ a ∷ b ∷ c ∷ d ∷ []
unfolding put_be_u32 be_u32
put_be_u32-be_u32 a b c d ha hb hc hd = ground arith

ip_to_key-print_ipv4 :
    (a b c d : ℕ)
    → a < 256
    → b < 256
    → c < 256
    → d < 256
    → ip_to_key (print_ipv4 a b c d) ≡ ok (a ∷ b ∷ c ∷ d ∷ [])
ip_to_key-print_ipv4 a b c d ha hb hc hd =
    ip_to_key-ip_to_uint32 _ _ (ip_to_uint32-print_ipv4 a b c d ha hb hc hd)
    ∙ ap ok (put_be_u32-be_u32 a b c d ha hb hc hd)

length-host_u32 : (e : Endian) (n : ℕ) → length (host_u32 e n) ≡ 4
unfolding host_u32
length-host_u32 little n = refl
length-host_u32 big n = refl

module _ (M : BpfMap) (L : IsLawful M) where
  add_put :
      (ip key : Bytes) (s : M.State) {t : M.State}
      → ip_to_key ip ≡ ok key
      → add M ip (some s) ≡ (none, some t)
      → M.put s key (M.marshal_u32 1) ≡ ok t
  unfolding add
  add_put ip key s k h = ground arith

  remove_delete :
      (ip key : Bytes) (s : M.State) {t : M.State}
      → ip_to_key ip ≡ ok key
      → remove M ip (some s) ≡ (none, some t)
      → M.delete s key ≡ ok t
  unfolding remove
  remove_delete ip key s k h = ground arith

  -- An `Add` of a.b.c.d that succeeds puts the 32-bit word 1 under the bytes a, b, c, d, on a machine
  -- of either byte order. A `Remove` of it that succeeds afterwards leaves no entry under them.
  pub add-remove :
      (a b c d : ℕ) (s : M.State) {t u : M.State}
      → a < 256
      → b < 256
      → c < 256
      → d < 256
      → add M (print_ipv4 a b c d) (some s) ≡ (none, some t)
      → remove M (print_ipv4 a b c d) (some t) ≡ (none, some u)
      → (M.lookup t (a ∷ b ∷ c ∷ d ∷ []) ≡ some (host_u32 M.host 1))
        × (M.lookup u (a ∷ b ∷ c ∷ d ∷ []) ≡ none)
  add-remove a b c d s {t} {u} ha hb hc hd added removed =
      let key = a ∷ b ∷ c ∷ d ∷ [] in
      let k = ip_to_key-print_ipv4 a b c d ha hb hc hd in
      (
        L.lookup-put_self s t key _ (add_put _ key s k added) ∙ ap some (L.marshal_u32_host 1),
        L.lookup-delete t u key key (remove_delete _ key t k removed) ∙ rw (bytes_eq_refl key),
      )

  length-marshal_u32 : (n : ℕ) → length (M.marshal_u32 n) ≡ 4
  length-marshal_u32 n = ap length (L.marshal_u32_host n) ∙ length-host_u32 M.host n

  -- On a map whose values are not four bytes long, as those of the loader's map are not, `Add` fails
  -- for every text, and changes nothing.
  pub add_value_size :
      (ip : Bytes) (s : M.State)
      → M.value_size ≢ 4
      → (e : BlocklistError M.Error) × (add M ip (some s) ≡ (some e, some s))
  unfolding add
  add_value_size ip s h = elim (Result-cases (ip_to_key ip)) [
    | inr (e, bad) ↦ (bad_ip e, ground arith)
    | inl (key, good) ↦ elim (Result-cases (M.put s key (M.marshal_u32 1))) [
      | inr (e, failed) ↦ (map_error ip e, ground arith)
      | inl (t, put) ↦
          absurd (ground (arith, L.put_sizes s key (M.marshal_u32 1), length-marshal_u32 1))
    ]
  ]

abbrev pub is_done : {E : Type 0} → Answer E → Bool
is_done (done ip) = true
is_done _ = false

-- Each handler answers 200 or leaves the block list as it was. In the no-op mode both handlers answer
-- 200 to every text that binds, and there is still no map.
pub handlers_unchanged :
    (M : BpfMap) (body : Result Bytes Bytes) (ip : Bytes) (b : Blocklist M)
    → ((is_done (handle_block M body b).0 ≡ true) ⊎ ((handle_block M body b).1 ≡ b))
      × ((is_done (handle_unblock M ip b).0 ≡ true) ⊎ ((handle_unblock M ip b).1 ≡ b))
      × (handle_block M (ok ip) none ≡ (done ip, none))
      × (handle_unblock M ip none ≡ (done ip, none))
unfolding handle_block handle_unblock add remove
handlers_unchanged M (err e) ip none = (inr refl, inr refl, refl, refl)
handlers_unchanged M (err e) ip (some s) = (inr refl, ground arith, refl, refl)
handlers_unchanged M (ok j) ip none = (inr refl, inr refl, refl, refl)
handlers_unchanged M (ok j) ip (some s) = (ground arith, ground arith, refl, refl)

-- A handler leaves the block list that the method leaves.
pub handle_block-add :
    (M : BpfMap) (ip : Bytes) (b : Blocklist M) → (handle_block M (ok ip) b).1 ≡ (add M ip b).1
unfolding handle_block
handle_block-add M ip b = elim (Option-cases (add M ip b).0) [
  | inl fine ↦ rw (fine, handle_block) refl
  | inr (e, failed) ↦ rw (failed, handle_block) refl
]

pub handle_unblock-remove :
    (M : BpfMap) (ip : Bytes) (b : Blocklist M) → (handle_unblock M ip b).1 ≡ (remove M ip b).1
unfolding handle_unblock
handle_unblock-remove M ip b = elim (Option-cases (remove M ip b).0) [
  | inl fine ↦ rw (fine, handle_unblock) refl
  | inr (e, failed) ↦ rw (failed, handle_unblock) refl
]
