-- ===== src/Runtime/Answers/Tracked.antt =====
-- One request of crates/omp-runtime/src/runtime.rs, followed through the table of pending requests and
-- the effects.
use omp_remote.Prelude.{
  ℕ, suc, ◌+◌, ◌≡◌, ◌≢◌, refl, ◌==◌, String, some, List, [], ◌∷◌, ◌++◌, ok, err, if◌then◌else◌,
  arith, String_discrete, ℕ_discrete, ◌⊎◌, All, All-append, Bool, true, false,
}
use omp_remote.Prelude.BTreeMap.{BTreeMap, get, insert, remove, get-insert, get-remove}
use omp_remote.Runtime.Types.{RequestError, Response, response_id, Sender, Effect}
use omp_remote.Runtime.Ops.{fail_all}
use omp_remote.Runtime.Answers.Pending.{
  waits, waits-insert-none, waits-remove-none, waits-get, sole, waits-insert-other,
  waits-remove-own, waits-remove-other,
}

module _ {B : Type 0} where
  -- How often a channel is answered.
  abbrev pub answers : Sender → List (Effect B) → ℕ
  answers k [] = 0
  answers k (Effect.answer tx r ∷ es) = if tx == k then suc (answers k es) else answers k es
  answers k (_ ∷ es) = answers k es

  -- What answers the channel is a response to the command of that ID, or an error.
  abbrev pub IsOwn : String → Sender → Effect B → Type 0
  IsOwn r k (Effect.answer tx (ok response)) = tx ≡ k → response_id response ≡ some r
  IsOwn r k _ = Unit

  abbrev pub IsQuiet : Effect B → Type 0
  IsQuiet (Effect.answer tx r) = Path Bool true false
  IsQuiet _ = Unit

  -- The request waits under its ID, or has been answered; in both cases, only by its own response.
  pub record Tracked (r : String) (k : Sender) (p : BTreeMap Sender) (es : List (Effect B))
      : Type 0 where
    pub progress :
        ((get r p ≡ some k) × (waits k p ≡ 1) × (answers k es ≡ 0))
        ⊎ ((waits k p ≡ 0) × (answers k es ≡ 1))
    pub own : All (IsOwn r k) es

  pub answers-append :
      (k : Sender) (es fs : List (Effect B)) → answers k (es ++ fs) ≡ answers k es + answers k fs
  answers-append k [] fs = omega arith
  answers-append k (Effect.answer tx r ∷ es) fs = ground (arith, answers-append k es fs)
  answers-append k (Effect.wrote x ∷ es) fs = answers-append k es fs
  answers-append k (Effect.event x ∷ es) fs = answers-append k es fs
  answers-append k (Effect.confirm tx x ∷ es) fs = answers-append k es fs
  answers-append k (Effect.stopped tx x ∷ es) fs = answers-append k es fs

  answers-quiet : (k : Sender) (e : Effect B) → IsQuiet e → answers k (e ∷ []) ≡ 0
  answers-quiet k (Effect.answer tx r) h = cc
  answers-quiet k (Effect.wrote x) h = refl
  answers-quiet k (Effect.event x) h = refl
  answers-quiet k (Effect.confirm tx x) h = refl
  answers-quiet k (Effect.stopped tx x) h = refl

  quiet-IsOwn : (r : String) (k : Sender) (e : Effect B) → IsQuiet e → IsOwn r k e
  quiet-IsOwn r k (Effect.answer tx a) h = cc
  quiet-IsOwn r k (Effect.wrote x) h = tt
  quiet-IsOwn r k (Effect.event x) h = tt
  quiet-IsOwn r k (Effect.confirm tx x) h = tt
  quiet-IsOwn r k (Effect.stopped tx x) h = tt

  module _ (r : String) (k : Sender) (p : BTreeMap Sender) (es : List (Effect B))
      (h : Tracked r k p es) where
    pub Tracked-quiet : (e : Effect B) → IsQuiet e → Tracked r k p (es ++ (e ∷ []))
    Tracked-quiet e q = record {
      progress = ground (arith, h.progress, answers-append k es (e ∷ []), answers-quiet k e q);
      own = All-append (IsOwn r k) es (e ∷ []) h.own (quiet-IsOwn r k e q, tt);
    }

    pub Tracked-error :
        (tx : Sender) (error : RequestError)
        → tx ≢ k
        → Tracked r k p (es ++ (Effect.answer tx (err error) ∷ []))
    Tracked-error tx error d = record {
      progress =
          ground (arith, h.progress, answers-append k es (Effect.answer tx (err error) ∷ []));
      own = All-append (IsOwn r k) es (Effect.answer tx (err error) ∷ []) h.own (tt, tt);
    }

    pub Tracked-insert :
        (i : String) (tx : Sender) → i ≢ r → tx ≢ k → Tracked r k (insert i tx p) es
    Tracked-insert i tx n d = record {
      progress = ground (
        arith,
        h.progress,
        get-insert i r tx p,
        waits-insert-other k r i tx p n d,
        waits-insert-none k i tx p d,
      );
      own = h.own;
    }

    pub Tracked-remove : (i : String) → i ≢ r → Tracked r k (remove i p) es
    Tracked-remove i n = record {
      progress = ground (
        arith,
        h.progress,
        get-remove i r p,
        waits-remove-other k r i p n,
        waits-remove-none k i p,
      );
      own = h.own;
    }

    pub Tracked-respond :
        (i : String) (tx : Sender) (a : Response B)
        → get i p ≡ some tx
        → response_id a ≡ some i
        → Tracked r k (remove i p) (es ++ (Effect.answer tx (ok a) ∷ []))
    Tracked-respond i tx a g e = record {
      progress = ground (
        arith,
        h.progress,
        ℕ_discrete tx k,
        String_discrete i r,
        answers-append k es (Effect.answer tx (ok a) ∷ []),
        get-remove i r p,
        sole k r i p,
        waits-get k i tx p,
        waits-remove-own k r p,
        waits-remove-other k r i p,
        waits-remove-none k i p,
      );
      own = All-append (IsOwn r k) es (Effect.answer tx (ok a) ∷ []) h.own (own_response, tt);
    }
      where
        own_response : tx ≡ k → response_id a ≡ some r
        own_response q = ground (arith, e, g, q, h.progress, sole k r i p, waits-get k i tx p)

module _ (B : Type 0) where
  pub answers-fail_all :
      (k : Sender) (error : RequestError) (p : BTreeMap Sender)
      → answers k (fail_all {B = B} error p) ≡ waits k p
  answers-fail_all k error [] = refl
  answers-fail_all k error ((i, tx) ∷ p) = ground (arith, answers-fail_all k error p)

  pub fail_all-IsOwn :
      (r : String) (k : Sender) (error : RequestError) (p : BTreeMap Sender)
      → All (IsOwn r k) (fail_all {B = B} error p)
  fail_all-IsOwn r k error [] = tt
  fail_all-IsOwn r k error ((i, tx) ∷ p) = (tt, fail_all-IsOwn r k error p)
