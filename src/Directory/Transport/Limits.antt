-- ===== src/Directory/Transport/Limits.antt =====
-- What a transport lets through.
use odp_rust.Prelude.{
  ℕ, ◌+◌, ◌≤◌, ◌<◌, ◌≡◌, min, true, false, Option, none, some, List, [], ◌∷◌, ◌++◌, Result, ok, err,
  ltb, length, any, length-append, arith, ◌⊎◌, Bool-cases, inl, inr,
}
use odp_rust.Prelude.Text.{Text}
use odp_rust.Directory.Transport.{
  HttpRequest, HttpResponse, TransportError, SocketAddr, response_limit, check_size,
  send_limited_by, Incoming, read_chunks, exchange, same_peer, wrong_peer, maximum_transport_bytes,
}

read_chunks_bound :
    (maximum : ℕ) (body : Text) (chunks : List (Result Text Text)) (read : Text)
    → length body ≤ maximum
    → read_chunks maximum body chunks ≡ ok read
    → length read ≤ maximum
unfolding read_chunks
read_chunks_bound maximum body [] read fits h = ground arith
read_chunks_bound maximum body (err e ∷ chunks) read fits h = cc
read_chunks_bound maximum body (ok chunk ∷ chunks) read fits h =
    elim (Bool-cases (ltb maximum (length body + length chunk))) [
      | inl over ↦ absurd (ground arith)
      | inr within ↦
          read_chunks_bound maximum (body ++ chunk) chunks read
            (ground (arith, length-append body chunk)) (ground arith)
    ]

-- The peer is one of the pinned destinations, where there are any.
abbrev pub IsPinned : Option (List SocketAddr) → Option SocketAddr → Type 0
IsPinned none peer = Unit
IsPinned (some pinned) none = ⊥
IsPinned (some pinned) (some peer) = any (λ a. same_peer a peer) pinned ≡ true

wrong_peer-IsPinned :
    (addresses : Option (List SocketAddr)) (peer : Option SocketAddr)
    → wrong_peer addresses peer ≡ false
    → IsPinned addresses peer
wrong_peer-IsPinned none peer h = tt
wrong_peer-IsPinned (some pinned) none h = cc
wrong_peer-IsPinned (some pinned) (some peer) h = ground arith

-- A body that `exchange` returns fits the caller's limit and two megabytes, and 16384 bytes where
-- the status is a failure; where destinations are pinned, the peer is one of them.
pub exchange_bounds :
    (incoming : Incoming) (maximum : ℕ) (addresses : Option (List SocketAddr))
    (response : HttpResponse)
    → exchange incoming maximum addresses ≡ ok response
    → (length response.body ≤ maximum)
      × (length response.body ≤ maximum_transport_bytes)
      × ((response.status < 400) ⊎ (length response.body ≤ 16384))
      × IsPinned addresses incoming.remote_addr
unfolding exchange response_limit
exchange_bounds incoming maximum addresses response h =
    let limit = response_limit incoming.status (min maximum maximum_transport_bytes) in
    let body_fits =
      read_chunks_bound limit [] incoming.chunks response.body (omega arith) (ground arith) in
    let status : incoming.status ≡ response.status = ground arith in
    (
      ground arith,
      ground arith,
      ground arith,
      wrong_peer-IsPinned addresses incoming.remote_addr (ground arith),
    )

-- The trait's own `send_limited` returns a body within the limit of its status.
pub send_limited_by_bound :
    {W : Type 0} (send : HttpRequest → W → Result TransportError HttpResponse × W)
    (request : HttpRequest) (maximum : ℕ) (w : W) (response : HttpResponse)
    → (send_limited_by send request maximum w).0 ≡ ok response
    → (length response.body ≤ maximum) × ((response.status < 400) ⊎ (length response.body ≤ 16384))
unfolding send_limited_by check_size response_limit
send_limited_by_bound send request maximum w response h = ground arith
