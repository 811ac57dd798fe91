-- ===== src/Client/Connection/Answers/Table.antt =====
-- How often a channel is among the pending requests of crates/omp-control-client/src/client.rs.
use omp_remote.Prelude.{
  ℕ, suc, ◌≡◌, ◌≢◌, refl, ◌==◌, Option, none, some, [], ◌∷◌, if◌then◌else◌, arith,
}
use omp_remote.Prelude.NumMap.{NumMap, get, insert, remove, update, modify}
use omp_remote.Protocol.Frame.Types.{Payloads}
use omp_remote.Protocol.Id.{RequestId}
use omp_remote.Client.Connection.Types.{PendingRequest, Sender}

module _ {P : Payloads} where
  abbrev pub waits : Sender → NumMap (PendingRequest P) → ℕ
  waits k [] = 0
  waits k ((i, p) ∷ m) = if p.response == k then suc (waits k m) else waits k m

  pub waits-insert-own :
      (k : Sender) (key : ℕ) (p : PendingRequest P) (m : NumMap (PendingRequest P))
      → p.response ≡ k
      → waits k m ≡ 0
      → waits k (insert key p m) ≡ 1
  unfolding insert
  waits-insert-own k key p [] q h = ground arith
  waits-insert-own k key p ((i, x) ∷ m) q h = ground (arith, waits-insert-own k key p m)

  pub waits-insert-none :
      (k : Sender) (key : ℕ) (p : PendingRequest P) (m : NumMap (PendingRequest P))
      → p.response ≢ k
      → waits k m ≡ 0
      → waits k (insert key p m) ≡ 0
  unfolding insert
  waits-insert-none k key p [] d h = ground arith
  waits-insert-none k key p ((i, x) ∷ m) d h = ground (arith, waits-insert-none k key p m d)

  pub waits-remove-none :
      (k : Sender) (key : ℕ) (m : NumMap (PendingRequest P))
      → waits k m ≡ 0
      → waits k (remove key m) ≡ 0
  unfolding remove
  waits-remove-none k key [] h = refl
  waits-remove-none k key ((i, x) ∷ m) h = ground (arith, waits-remove-none k key m)

  pub waits-get :
      (k : Sender) (key : ℕ) (p : PendingRequest P) (m : NumMap (PendingRequest P))
      → waits k m ≡ 0
      → get key m ≡ some p
      → p.response ≢ k
  unfolding get
  waits-get k key p [] h g = cc
  waits-get k key p ((i, x) ∷ m) h g = ground (arith, waits-get k key p m)

  -- A channel that waits once is under one key only.
  pub sole :
      (k : Sender) (key i : ℕ) (p x : PendingRequest P) (m : NumMap (PendingRequest P))
      → waits k m ≡ 1
      → get key m ≡ some p
      → p.response ≡ k
      → get i m ≡ some x
      → x.response ≡ k
      → i ≡ key
  unfolding get
  sole k key i p x [] w g q h e = cc
  sole k key i p x ((j, y) ∷ m) w g q h e =
      ground (arith, sole k key i p x m, waits-get k key p m, waits-get k i x m)

  pub waits-insert-other :
      (k : Sender) (key i : ℕ) (p x : PendingRequest P) (m : NumMap (PendingRequest P))
      → i ≢ key
      → x.response ≢ k
      → get key m ≡ some p
      → p.response ≡ k
      → waits k m ≡ 1
      → waits k (insert i x m) ≡ 1
  unfolding get insert
  waits-insert-other k key i p x [] n d g q w = cc
  waits-insert-other k key i p x ((j, y) ∷ m) n d g q w = ground (
    arith,
    waits-insert-other k key i p x m n d,
    waits-insert-none k i x m d,
    waits-get k key p m,
  )

  pub waits-modify :
      (k : Sender) (i : ℕ) (id : Option RequestId) (m : NumMap (PendingRequest P))
      → waits k (modify (λ p. record p { sent_request_id = id }) i m) ≡ waits k m
  unfolding modify
  waits-modify k i id [] = refl
  waits-modify k i id ((j, y) ∷ m) = ground (arith, waits-modify k i id m)

  pub waits-update :
      (k : Sender) (m : NumMap (PendingRequest P))
      → waits k (update (λ p. record p { sent_request_id = none }) m) ≡ waits k m
  waits-update k [] = refl
  waits-update k ((j, y) ∷ m) = ground (arith, waits-update k m)

  pub waits-remove-own :
      (k : Sender) (key : ℕ) (p : PendingRequest P) (m : NumMap (PendingRequest P))
      → get key m ≡ some p
      → p.response ≡ k
      → waits k m ≡ 1
      → waits k (remove key m) ≡ 0
  unfolding get remove
  waits-remove-own k key p [] g q w = cc
  waits-remove-own k key p ((j, y) ∷ m) g q w =
      ground (arith, waits-remove-own k key p m, waits-remove-none k key m, waits-get k key p m)

  pub waits-remove-other :
      (k : Sender) (key i : ℕ) (p : PendingRequest P) (m : NumMap (PendingRequest P))
      → i ≢ key
      → get key m ≡ some p
      → p.response ≡ k
      → waits k m ≡ 1
      → waits k (remove i m) ≡ 1
  unfolding get remove
  waits-remove-other k key i p [] n g q w = cc
  waits-remove-other k key i p ((j, y) ∷ m) n g q w =
      ground (arith, waits-remove-other k key i p m n, waits-remove-none k i m, waits-get k key p m)
