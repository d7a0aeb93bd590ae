-- ===== src/Extensions/View/Stack.antt =====
-- The navigation stack of crates/extensions/src/view.rs.
use superspace.Base.{
  ◌≤◌, ◌≡◌, refl, sym, ap, inl, inr, Bool-cases, Option, none, some, List, [], ◌∷◌, length, All,
  arith, leb,
}
use superspace.Base.Result.{Result, ok, err}
use superspace.Extensions.View.{
  View, ViewError, max_navigation_depth, Host, validate, push, push_checked, pop,
}
use superspace.Extensions.View.Safety.{IsSafe, validate-IsSafe}

module _ {Float : Type 0} (host : Host Float) where
  -- What the extension and the user ask for.
  pub data Request : Type 0 where
    pushing : View Float → Request
    popping : Request

  abbrev pub step : Request → List (View Float) → List (View Float)
  step (pushing view) stack = (push host view stack).0
  step popping stack = (pop host stack).0

  unfoldable pub run : List Request → List (View Float) → List (View Float)
  run [] stack = stack
  run (request ∷ requests) stack = run requests (step request stack)

  -- The views are safe, and not too many.
  pub record IsNavigation (stack : List (View Float)) : Type 0 where
    pub safe : All (IsSafe host) stack
    pub bounded : length stack ≤ max_navigation_depth

  -- The first view that was pushed.
  abbrev pub root : List (View Float) → Option (View Float)
  root [] = none
  root (view ∷ []) = some view
  root (view ∷ under ∷ stack) = root (under ∷ stack)

  -- A step keeps the invariant, and the root.
  pub record Keeps (stack stack' : List (View Float)) : Type 0 where
    pub valid : IsNavigation stack'
    pub rooted : (view : View Float) → root stack ≡ some view → root stack' ≡ some view

  root-push :
      (view : View Float) (stack : List (View Float)) (first : View Float)
      → root stack ≡ some first
      → root (view ∷ stack) ≡ some first
  root-push view [] first h = absurd cc
  root-push view (under ∷ stack) first h = h

  push_checked-Keeps :
      (checked : Result ViewError (Unit {0})) (view : View Float) (stack : List (View Float))
      → validate host view ≡ checked
      → IsNavigation stack
      → Keeps stack (push_checked host checked view stack).0
  unfolding push_checked
  push_checked-Keeps (err e) view stack h n = record { valid = n; rooted = λ first r. r }
  push_checked-Keeps (ok t) view stack h n =
      elim (Bool-cases (leb max_navigation_depth (length stack))) [
        | inl full ↦ rw full (record { valid = n; rooted = λ first r. r })
        | inr free ↦ rw free (record {
          valid = record {
            safe = ((validate-IsSafe host view h).0, n.safe);
            bounded = ground (arith, free);
          };
          rooted = λ first r. root-push view stack first r;
        })
      ]

  pop-Keeps : (stack : List (View Float)) → IsNavigation stack → Keeps stack (pop host stack).0
  unfolding pop
  pop-Keeps [] n = record { valid = n; rooted = λ first r. r }
  pop-Keeps (view ∷ []) n = record { valid = n; rooted = λ first r. r }
  pop-Keeps (view ∷ under ∷ stack) n = record {
    valid = record { safe = n.safe.1; bounded = omega (arith, n.bounded) };
    rooted = λ first r. r;
  }

  step-Keeps :
      (request : Request) (stack : List (View Float))
      → IsNavigation stack
      → Keeps stack (step request stack)
  unfolding push
  step-Keeps (pushing view) stack n = push_checked-Keeps (validate host view) view stack refl n
  step-Keeps popping stack n = pop-Keeps stack n

  -- Whatever is asked for, the views on the stack keep to the schema, they are at most 64, and the first view
  -- that was accepted stays at the bottom.
  pub run-Keeps :
      (requests : List Request) (stack : List (View Float))
      → IsNavigation stack
      → Keeps stack (run requests stack)
  unfolding run
  run-Keeps [] stack n = record { valid = n; rooted = λ first r. r }
  run-Keeps (request ∷ requests) stack n =
      let once = step-Keeps request stack n in
      let rest = run-Keeps requests (step request stack) once.valid in
      record { valid = rest.valid; rooted = λ first r. rest.rooted first (once.rooted first r) }

  push_checked-ok :
      (checked : Result ViewError (Unit {0})) (view : View Float) (stack stack' : List (View Float))
      → push_checked host checked view stack ≡ (stack', ok tt)
      → view ∷ stack ≡ stack'
  unfolding push_checked
  push_checked-ok (err e) view stack stack' h = absurd (cc (ap (λ c. c.1) h))
  push_checked-ok (ok t) view stack stack' h =
      elim (Bool-cases (leb max_navigation_depth (length stack))) [
        | inl full ↦ absurd (cc (ap (λ c. c.1) (rw full at h)))
        | inr free ↦ ap (λ c. c.0) (rw free at h)
      ]

  -- A view that is pushed onto another is what the next pop gives back, and the stack is as it was.
  pub pop-push :
      (view under : View Float) (stack stack' : List (View Float))
      → push host view (under ∷ stack) ≡ (stack', ok tt)
      → pop host stack' ≡ (under ∷ stack, some view)
  unfolding push pop
  pop-push view under stack stack' h =
      ap (pop host) (sym (push_checked-ok (validate host view) view (under ∷ stack) stack' h))
