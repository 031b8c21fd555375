-- ===== src/Loader/Errors.antt =====
-- What a request that fails, or only reads, leaves of the map.
use rate_limiter.Base.{drop, length, ◌≤◌, ◌≡◌, ◌⊎◌, Bytes, Result, arith}
use rate_limiter.Base.Int.{ℤ}
use rate_limiter.Bpf.{BpfMap}
use rate_limiter.Loader.Handlers.{
  BlockRequest, Request, handle_add_block, handle_remove_block, handle_list_blocks, route_block,
  route_block_ip, serve, get, block_prefix,
}

module _ (M : BpfMap) where
  remove_failed :
      (ip : Bytes) (s : M.State)
      → 400 ≤ (handle_remove_block M ip s).0.status
      → (handle_remove_block M ip s).1 ≡ s
  unfolding handle_remove_block
  remove_failed ip s h = ground arith

  list_reads : (now : ℤ) (s : M.State) → (handle_list_blocks M now s).1 ≡ s
  unfolding handle_list_blocks
  list_reads now s = ground arith

module _ (M : BpfMap) (decode : Bytes → Result Bytes BlockRequest) where
  add_failed :
      (now : ℤ) (r : Request) (s : M.State)
      → 400 ≤ (handle_add_block M decode now r s).0.status
      → (handle_add_block M decode now r s).1 ≡ s
  unfolding handle_add_block
  add_failed now r s h = ground arith

  -- A request that is answered with an error status, whatever the path, the method and the body,
  -- leaves the map as it was, and so does every GET.
  pub serve_unchanged :
      (now : ℤ) (r : Request) (s : M.State)
      → (400 ≤ (serve M decode now r s).0.status) ⊎ (r.method ≡ get)
      → (serve M decode now r s).1 ≡ s
  unfolding serve route_block route_block_ip
  serve_unchanged now r s h = ground (
    arith,
    add_failed now r s,
    list_reads M now s,
    remove_failed M (drop (length block_prefix) r.path) s,
  )
