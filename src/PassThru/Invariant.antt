-- ===== src/PassThru/Invariant.antt =====
-- What holds between the calls of every history.
use qt_gretio.Prelude.{
  ℕ, ◌≡◌, refl, subst, ◌⊎◌, inl, inr, Bool, true, false, Option, none, some, List, arith,
  if◌then◌else◌, Option-cases,
}
use qt_gretio.Qt.{Qt}
use qt_gretio.Context.{Context, Event, Waited, starved, finished, send_receive_cseq}
use qt_gretio.Context.Evolution.{IsSound}
use qt_gretio.Context.Numbering.{IsNumbered, send_receive_cseq-IsNumbered}
use qt_gretio.Context.Replies.{send_receive_cseq-IsSound}
use qt_gretio.PassThru.{
  M, Globals, Outcome, returned, blocked, fault, ◌>>=◌, done, done_with, unless_null, no_error_yet,
  could_not_send, request,
}

abbrev pub is_some {ℓ} : {A : Type ℓ} → Option A → Bool
is_some none = false
is_some (some a) = true

module _ {q : Qt} where
  abbrev pub ContextIsSound : Option (Context q) → Type 0
  ContextIsSound none = Unit {0}
  ContextIsSound (some c) = IsSound c

  abbrev pub ContextIsNumbered : Option (Context q) → Type 0
  ContextIsNumbered none = Unit {0}
  ContextIsNumbered (some c) = IsNumbered q c

  -- The application object lives as long as the context; the last error is one of two texts; a
  -- context whose status is `connected` has been authenticated; and what the context has sent are
  -- greetings and requests with successive numbers.
  pub record Inv (g : Globals q) : Type 0 where
    pub paired : is_some g.context ≡ g.app
    pub error_known : (g.last_error ≡ q.text no_error_yet) ⊎ (g.last_error ≡ q.text could_not_send)
    pub context_sound : ContextIsSound g.context
    pub context_numbered : ContextIsNumbered g.context

  abbrev pub After {ℓ} : {A : Type ℓ} → Outcome q A → Type 0
  After (returned a g) = Inv g
  After blocked = Unit
  After fault = Unit

  -- A function keeps the invariant, if it returns.
  pub data Keeps {ℓ} {A : Type ℓ} (m : M q A) : Type ℓ where
    keeps : ((g : Globals q) → Inv g → After (m g)) → Keeps m

  pub Keeps-After {ℓ} : {A : Type ℓ} {m : M q A} → Keeps m → (g : Globals q) → Inv g → After (m g)
  Keeps-After (keeps f) g v = f g v

pub Waited-cases {ℓ} :
    {q : Qt} {A : Type ℓ} (w : Waited q A)
    → (w ≡ starved) ⊎ ((a : A) × (d : Context q) × (es : List (Event q)) × (w ≡ finished a d es))
Waited-cases starved = inl refl
Waited-cases (finished a d es) = inr (a, d, es, refl)

module _ {ℓ} {q : Qt} {A : Type ℓ} where
  pub done-Keeps : (a : A) → Keeps (done {q = q} a)
  unfolding done
  done-Keeps a = keeps λ g v. v

  pub done_with-Keeps : (a : A) → Keeps (done_with {q = q} could_not_send a)
  unfolding done_with
  done_with-Keeps a = keeps λ g v. record {
    paired = v.paired;
    error_known = inr refl;
    context_sound = v.context_sound;
    context_numbered = v.context_numbered;
  }

  pub unless_null-Keeps : (a : A) (m : M q A) → Keeps m → Keeps (unless_null a m)
  unfolding unless_null
  unless_null-Keeps a m (keeps f) = keeps λ g v. ground (arith, f g v)

  pub if-Keeps : (b : Bool) (m n : M q A) → Keeps m → Keeps n → Keeps (if b then m else n)
  if-Keeps true m n h k = h
  if-Keeps false m n h k = k

  pub Keeps-fault : Keeps {q = q} {A = A} (λ g. fault)
  Keeps-fault = keeps λ g v. tt

module _ {ℓ κ} {q : Qt} {A : Type ℓ} {B : Type κ} where
  pub After-bind :
      (o : Outcome q A) (f : A → M q B)
      → After o
      → ((a : A) → Keeps (f a))
      → After (elim o as (λ o. Outcome q B) [
        | returned a g' ↦ f a g'
        | blocked ↦ blocked
        | fault ↦ fault
      ])
  After-bind (returned a g) f h k = Keeps-After (k a) g h
  After-bind blocked f h k = tt
  After-bind fault f h k = tt

  pub bind-Keeps : (m : M q A) (f : A → M q B) → Keeps m → ((a : A) → Keeps (f a)) → Keeps (m >>= f)
  unfolding ◌>>=◌
  bind-Keeps m f (keeps h) k = keeps λ g v. After-bind (m g) f (h g v) k

module _ (q : Qt) where
  pub request-Keeps : (message : q.Object) (timeout : ℕ) → Keeps (request q message timeout)
  unfolding request
  request-Keeps message timeout = keeps λ g v. elim (Option-cases g.context) [
    | inl e ↦ rw (request, e) tt
    | inr (c, e) ↦ elim (Waited-cases (send_receive_cseq q message timeout c g.events)) [
      | inl s ↦ rw (request, e, s) tt
      | inr (r, d, es, f) ↦
          rw (request, e, f)
            (record {
              paired = ground (arith, v.paired);
              error_known = v.error_known;
              context_sound =
                  send_receive_cseq-IsSound q message timeout c d g.events es r f
                    (subst ContextIsSound e v.context_sound);
              context_numbered =
                  send_receive_cseq-IsNumbered q message timeout c d g.events es r f
                    (subst ContextIsNumbered e v.context_numbered);
            })
    ]
  ]
