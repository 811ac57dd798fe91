-- ===== src/Client/Connection/Answers/Tracked.antt =====
-- One request of crates/omp-control-client/src/client.rs, followed through the table of pending
-- requests and the effects.
use omp_remote.Prelude.{
  ℕ, suc, ◌+◌, ◌≡◌, ◌≢◌, refl, ◌==◌, Option, none, some, List, [], ◌∷◌, ◌++◌, Result, if◌then◌else◌,
  arith, ◌⊎◌, inl, inr, Bool, true, false, ℕ_discrete, ◌∙◌, Bool-cases, ap, sym, subst,
}
use omp_remote.Prelude.NumMap.{
  NumMap, get, insert, remove, update, modify, get-insert, get-remove, get-update, get-modify,
}
use omp_remote.Protocol.Id.{RequestId, OperationId}
use omp_remote.Protocol.Frame.Types.{Payloads, ControlResponse}
use omp_remote.Client.Connection.Types.{
  PendingRequest, PendingPayload, Sender, Effect, RequestError,
}
use omp_remote.Client.Connection.Answers.Table.{
  waits, waits-insert-none, waits-remove-none, waits-get, sole, waits-insert-other, waits-modify,
  waits-update, waits-remove-own, waits-remove-other,
}

module _ {P : Payloads} where
  -- How often a channel is answered.
  abbrev pub answers : Sender → List (Effect P) → ℕ
  answers k [] = 0
  answers k (Effect.answer tx r ∷ es) = if tx == k then suc (answers k es) else answers k es
  answers k (_ ∷ es) = answers k es

  abbrev pub IsQuiet : Effect P → Type 0
  IsQuiet (Effect.answer tx r) = Path Bool true false
  IsQuiet _ = Unit

  pub answers-append :
      (k : Sender) (es fs : List (Effect P)) → answers k (es ++ fs) ≡ answers k es + answers k fs
  answers-append k [] fs = omega arith
  answers-append k (Effect.answer tx r ∷ es) fs = ground (arith, answers-append k es fs)
  answers-append k (Effect.broadcast x ∷ es) fs = answers-append k es fs
  answers-append k (Effect.acknowledge x ∷ es) fs = answers-append k es fs

  answers-quiet : (k : Sender) (e : Effect P) → IsQuiet e → answers k (e ∷ []) ≡ 0
  answers-quiet k (Effect.answer tx r) h = cc
  answers-quiet k (Effect.broadcast x) h = refl
  answers-quiet k (Effect.acknowledge x) h = refl

  -- The request waits under its key, as it was made.
  pub record IsWaiting (key : ℕ) (payload : PendingPayload P) (operation_id : Option OperationId)
      (k : Sender) (m : NumMap (PendingRequest P)) (es : List (Effect P)) : Type 0 where
    pub sent : Option RequestId
    pub found :
        get key m
        ≡ some (record {
          payload = payload;
          operation_id = operation_id;
          sent_request_id = sent;
          response = k;
        })
    pub once : waits k m ≡ 1
    pub unanswered : answers k es ≡ 0

  pub record IsAnswered (k : Sender) (m : NumMap (PendingRequest P)) (es : List (Effect P))
      : Type 0 where
    pub gone : waits k m ≡ 0
    pub answered : answers k es ≡ 1

  module _ (key : ℕ) (payload : PendingPayload P) (operation_id : Option OperationId)
      (k : Sender) where
    abbrev pub Tracked : NumMap (PendingRequest P) → List (Effect P) → Type 0
    Tracked m es = IsWaiting key payload operation_id k m es ⊎ IsAnswered k m es

    abbrev entry : Option RequestId → PendingRequest P
    entry sent = record {
      payload = payload;
      operation_id = operation_id;
      sent_request_id = sent;
      response = k;
    }

    module _ (m : NumMap (PendingRequest P)) (es : List (Effect P)) where
      pub Tracked-quiet : (e : Effect P) → IsQuiet e → Tracked m es → Tracked m (es ++ (e ∷ []))
      Tracked-quiet e q (inl h) = inl (record {
        sent = h.sent;
        found = h.found;
        once = h.once;
        unanswered = omega (arith, answers-append k es (e ∷ []), answers-quiet k e q, h.unanswered);
      })
      Tracked-quiet e q (inr h) = inr (record {
        gone = h.gone;
        answered = omega (arith, answers-append k es (e ∷ []), answers-quiet k e q, h.answered);
      })

      pub Tracked-insert :
          (i : ℕ) (x : PendingRequest P)
          → i ≢ key
          → x.response ≢ k
          → Tracked m es
          → Tracked (insert i x m) es
      Tracked-insert i x n d (inl h) = inl (record {
        sent = h.sent;
        found = get-insert i key x m ∙ ground (arith, h.found, n);
        once = waits-insert-other k key i (entry h.sent) x m n d h.found refl h.once;
        unanswered = h.unanswered;
      })
      Tracked-insert i x n d (inr h) =
          inr (record { gone = waits-insert-none k i x m d h.gone; answered = h.answered })

      pub Tracked-modify :
          (i : ℕ) (id : Option RequestId)
          → Tracked m es
          → Tracked (modify (λ p. record p { sent_request_id = id }) i m) es
      Tracked-modify i id (inl h) = inl (record {
        sent = if key == i then id else h.sent;
        found =
            get-modify (λ p. record p { sent_request_id = id }) i key m
            ∙ rw (h.found)
                (elim (Bool-cases (key == i)) [ inl e ↦ rw (e) refl | inr e ↦ rw (e) refl ]);
        once = waits-modify k i id m ∙ h.once;
        unanswered = h.unanswered;
      })
      Tracked-modify i id (inr h) =
          inr (record { gone = waits-modify k i id m ∙ h.gone; answered = h.answered })

      pub Tracked-update :
          Tracked m es → Tracked (update (λ p. record p { sent_request_id = none }) m) es
      Tracked-update (inl h) = inl (record {
        sent = none;
        found = get-update (λ p. record p { sent_request_id = none }) key m ∙ rw (h.found) refl;
        once = waits-update k m ∙ h.once;
        unanswered = h.unanswered;
      })
      Tracked-update (inr h) =
          inr (record { gone = waits-update k m ∙ h.gone; answered = h.answered })

      pub Tracked-respond :
          (i : ℕ) (x : PendingRequest P) (a : Result RequestError ControlResponse)
          → get i m ≡ some x
          → Tracked m es
          → Tracked (remove i m) (es ++ (Effect.answer x.response a ∷ []))
      Tracked-respond i x a g (inl h) = elim (ℕ_discrete x.response k) [
        | yes q ↦
            let same : i ≡ key = sole k key i (entry h.sent) x m h.once h.found refl g q in
            inr (record {
              gone = rw (same) (waits-remove-own k key (entry h.sent) m h.found refl h.once);
              answered =
                  ground
                    (arith, q, h.unanswered, answers-append k es (Effect.answer x.response a ∷ []));
            })
        | no d ↦
            let other : i ≢ key = λ same. d (
              ap (λ o. elim o [ none ↦ k | some y ↦ y.response ])
                (sym (subst (λ j. get j m ≡ some x) same g) ∙ h.found)) in
            inl (record {
              sent = h.sent;
              found = get-remove i key m ∙ ground (arith, h.found, other);
              once = waits-remove-other k key i (entry h.sent) m other h.found refl h.once;
              unanswered =
                  ground
                    (arith, d, h.unanswered, answers-append k es (Effect.answer x.response a ∷ []));
            })
      ]
      Tracked-respond i x a g (inr h) = inr (record {
        gone = waits-remove-none k i m h.gone;
        answered = ground (
          arith,
          waits-get k i x m h.gone g,
          h.answered,
          answers-append k es (Effect.answer x.response a ∷ []),
        );
      })
