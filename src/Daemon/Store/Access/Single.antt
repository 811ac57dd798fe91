-- ===== src/Daemon/Store/Access/Single.antt =====
-- How often a pairing of store.rs is redeemed.
use omp_remote.Prelude.{
  ℕ, ◌+◌, ◌≤◌, String, ◌≡◌, refl, true, false, ◌&&◌, List, [], ◌∷◌, Result, ok, err, arith, sym,
  subst, if◌then◌else◌, Bool-cases, ◌⊎◌, inl, inr,
}
use omp_remote.Prelude.BTreeMap
use omp_remote.Prelude.BTreeMap.{contains_key, get-insert}
use omp_remote.Protocol.Id.{DeviceId, PairingId, ServerId}
use omp_remote.Protocol.Frame.Types.{
  Payloads, DeviceToken, PairingSecret, DeviceScopes, DeviceDescriptor,
}
use omp_remote.Daemon.Store.Types.{Outside, PairingRow, StoreError}
use omp_remote.Daemon.Store.Operations.Ops.{Db}
use omp_remote.Daemon.Store.Pairing.Ops.{
  create_pairing, consume_pairing, exchange_pairing, redeem, pairing_row,
}
use omp_remote.Daemon.Store.Access.{
  AccessCall, insert_call, authenticate_call, revoke_call, create_call, consume_call, exchange_call,
  after_access,
}
use omp_remote.Daemon.Store.Access.Untouched.{insert_device-Kept, authenticate-Kept, revoke-Kept}
use omp_remote.Daemon.Store.Access.Consumed.{
  is_ok, same_pairing, consumed_row, IsConsumed, consumed_refused, kept-consumed, marked-IsConsumed,
  mark-marks, consume_outcome, exchange_outcome,
}

module _ {P : Payloads} (o : Outside P) where
  -- Whether the call redeems the pairing.
  unfoldable pub redeems : PairingId → AccessCall → Db o → ℕ
  redeems k (consume_call id secret now) c =
      if same_pairing id k && is_ok (consume_pairing o id secret now c).0 then 1 else 0
  redeems k (exchange_call server device token id secret descriptor now) c =
      if same_pairing id k
        && is_ok (exchange_pairing o server device token id secret descriptor now c).0
      then 1
      else 0
  redeems k _ c = 0

  unfoldable pub redemptions : PairingId → List AccessCall → Db o → ℕ
  unfolding redeems after_access
  redemptions k [] c = 0
  redemptions k (call ∷ calls) c = redeems k call c + redemptions k calls (after_access o call c)

  create-IsConsumed :
      (k id : PairingId) (secret : PairingSecret) (name : String) (scopes : DeviceScopes)
      (t ttl : ℕ) (c : Db o)
      → IsConsumed o k c
      → IsConsumed o k (create_pairing o id secret name scopes t ttl c).1
  unfolding create_pairing
  create-IsConsumed k id secret name scopes t ttl c h =
      go (pairing_row o secret name scopes t ttl) refl
    where
      go :
          (x : Result StoreError (ℕ × PairingRow o.Hash))
          → pairing_row o secret name scopes t ttl ≡ x
          → IsConsumed o k (create_pairing o id secret name scopes t ttl c).1
      go (err e) x = rw (x, create_pairing) h
      go (ok (expires, row)) x = elim (Bool-cases (contains_key id c.pairing_secrets)) [
        | inl d ↦ rw (x, d, create_pairing) h
        | inr d ↦ rw (x, d, create_pairing) (ground (arith, get-insert id k row c.pairing_secrets))
      ]

  consume-IsConsumed :
      (k id : PairingId) (secret : PairingSecret) (t : ℕ) (c : Db o)
      → IsConsumed o k c
      → IsConsumed o k (consume_pairing o id secret t c).1
  consume-IsConsumed k id secret t c h = elim (consume_outcome o id secret t c) [
    | inl (e, kept) ↦ kept-consumed o k _ _ kept h
    | inr (e, row, now, kept) ↦ kept-consumed o k _ _ kept (marked-IsConsumed o k id row now c h)
  ]

  exchange-IsConsumed :
      (k : PairingId) (server : ServerId) (device : DeviceId) (token : DeviceToken) (id : PairingId)
      (secret : PairingSecret) (descriptor : DeviceDescriptor) (t : ℕ) (c : Db o)
      → IsConsumed o k c
      → IsConsumed o k (exchange_pairing o server device token id secret descriptor t c).1
  exchange-IsConsumed k server device token id secret descriptor t c h =
      elim (exchange_outcome o server device token id secret descriptor t c) [
        | inl (e, kept) ↦ kept-consumed o k _ _ kept h
        | inr (e, row, now, kept) ↦
            kept-consumed o k _ _ kept (marked-IsConsumed o k id row now c h)
      ]

  pub after_access-IsConsumed :
      (k : PairingId) (call : AccessCall) (c : Db o)
      → IsConsumed o k c
      → IsConsumed o k (after_access o call c)
  unfolding after_access
  after_access-IsConsumed k (insert_call r token) c h =
      kept-consumed o k _ _ (insert_device-Kept o r token c) h
  after_access-IsConsumed k (authenticate_call id token t) c h =
      kept-consumed o k _ _ (authenticate-Kept o id token t c) h
  after_access-IsConsumed k (revoke_call id t) c h = kept-consumed o k _ _ (revoke-Kept o id t c) h
  after_access-IsConsumed k (create_call id secret name scopes t ttl) c h =
      create-IsConsumed k id secret name scopes t ttl c h
  after_access-IsConsumed k (consume_call id secret t) c h = consume-IsConsumed k id secret t c h
  after_access-IsConsumed k (exchange_call server device token id secret descriptor t) c h =
      exchange-IsConsumed k server device token id secret descriptor t c h

  same_pairing-eq : (a b : PairingId) → same_pairing a b ≡ true → a ≡ b
  same_pairing-eq a b h = ground arith

  -- What passes the check was not consumed.
  unconsumed :
      (k id : PairingId) (secret : PairingSecret) (t : ℕ) (c : Db o)
      → same_pairing id k ≡ true
      → is_ok (redeem o id secret t c) ≡ true
      → consumed_row o (BTreeMap.get k c.pairing_secrets) ≡ false
  unconsumed k id secret t c d e =
      elim (Bool-cases (consumed_row o (BTreeMap.get k c.pairing_secrets))) [
        | inr f ↦ f
        | inl f ↦ cc (
          e,
          consumed_refused o id secret t c
              (subst (λ k. IsConsumed o k c) (sym (same_pairing-eq id k d)) f),
        )
      ]

  -- A call redeems nothing, or it redeems a pairing that was not consumed and is consumed then.
  redeems-marks :
      (k : PairingId) (call : AccessCall) (c : Db o)
      → (redeems k call c ≡ 0)
        ⊎ ((redeems k call c ≡ 1)
            × (consumed_row o (BTreeMap.get k c.pairing_secrets) ≡ false)
            × IsConsumed o k (after_access o call c))
  unfolding redeems after_access
  redeems-marks k (insert_call r token) c = inl refl
  redeems-marks k (authenticate_call id token t) c = inl refl
  redeems-marks k (revoke_call id t) c = inl refl
  redeems-marks k (create_call id secret name scopes t ttl) c = inl refl
  redeems-marks k (consume_call id secret t) c = elim (Bool-cases (same_pairing id k)) [
    | inr d ↦ inl (rw (d, redeems) refl)
    | inl d ↦ elim (consume_outcome o id secret t c) [
      | inl (e, kept) ↦ inl (rw (d, redeems) (rw e refl))
      | inr (e, row, now, kept) ↦ elim (Bool-cases (is_ok (consume_pairing o id secret t c).0)) [
        | inr f ↦ inl (rw (d, redeems) (rw f refl))
        | inl f ↦ inr (
          rw (d, redeems) (rw f refl),
          unconsumed k id secret t c d e,
          kept-consumed o k _ _ kept (mark-marks o k id row now c d),
        )
      ]
    ]
  ]
  redeems-marks k (exchange_call server device token id secret descriptor t) c =
      elim (Bool-cases (same_pairing id k)) [
        | inr d ↦ inl (rw (d, redeems) refl)
        | inl d ↦ elim (exchange_outcome o server device token id secret descriptor t c) [
          | inl (e, kept) ↦ inl (rw (d, redeems) (rw e refl))
          | inr (e, row, now, kept) ↦
              elim (Bool-cases
                (is_ok (exchange_pairing o server device token id secret descriptor t c).0)) [
                  | inr f ↦ inl (rw (d, redeems) (rw f refl))
                  | inl f ↦ inr (
                    rw (d, redeems) (rw f refl),
                    unconsumed k id secret t c d e,
                    kept-consumed o k _ _ kept (mark-marks o k id row now c d),
                  )
                ]
        ]
      ]

  redemptions-consumed :
      (k : PairingId) (calls : List AccessCall) (c : Db o)
      → IsConsumed o k c
      → redemptions k calls c ≡ 0
  unfolding redemptions
  redemptions-consumed k [] c h = refl
  redemptions-consumed k (call ∷ calls) c h = elim (redeems-marks k call c) [
    | inl e ↦ omega (
      arith,
      e,
      redemptions-consumed k calls (after_access o call c) (after_access-IsConsumed k call c h),
    )
    | inr (e, fresh, g) ↦ cc (h, fresh)
  ]

  redemptions-at_most_one :
      (k : PairingId) (calls : List AccessCall) (c : Db o) → redemptions k calls c ≤ 1
  unfolding redemptions
  redemptions-at_most_one k [] c = omega arith
  redemptions-at_most_one k (call ∷ calls) c = elim (redeems-marks k call c) [
    | inl e ↦ omega (arith, e, redemptions-at_most_one k calls (after_access o call c))
    | inr (e, fresh, h) ↦ omega (arith, e, redemptions-consumed k calls (after_access o call c) h)
  ]

  -- Whatever is called upon devices and pairings, a pairing is redeemed, by a consumption or by an
  -- exchange, at most once, and not at all if it was consumed before.
  pub redemptions-le-one :
      (k : PairingId) (calls : List AccessCall) (c : Db o)
      → redemptions k calls c ≤ (if consumed_row o (BTreeMap.get k c.pairing_secrets) then 0 else 1)
  unfolding redemptions
  redemptions-le-one k calls c =
      elim (Bool-cases (consumed_row o (BTreeMap.get k c.pairing_secrets))) [
        | inl e ↦ rw e (omega (arith, redemptions-consumed k calls c e))
        | inr e ↦ rw e (redemptions-at_most_one k calls c)
      ]
