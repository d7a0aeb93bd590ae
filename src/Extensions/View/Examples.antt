-- ===== src/Extensions/View/Examples.antt =====
-- Views and navigation of crates/extensions/src/view.rs on examples: fractions in hundredths.
use superspace.Base.{
  ℕ, ◌≤◌, ◌≡◌, refl, Bool, true, Option, none, some, List, [], ◌∷◌, length, leb, arith,
}
use superspace.Base.Result.{ok, err}
use superspace.Base.Text.{Text}
use superspace.Extensions.View.{
  Action, ListItem, View, list, progress, Host, validate, push, pop, duplicate,
}
use superspace.Extensions.View.Stack.{pushing, popping, run, Keeps, run-Keeps, pop-push}

abbrev host : Host ℕ
host = record {
  to_vec = λ view. some (1 ∷ []);
  is_finite = λ n. true;
  in_unit_range = λ n. leb n 100;
}

abbrev name : Text
name = b'a' ∷ []

abbrev open_action : Action
open_action = record { id = name; title = name; shortcut = none }

abbrev item : ListItem
item = record { id = name; title = name; subtitle = none; icon = none; actions = open_action ∷ [] }

abbrev results : View ℕ
results = list (item ∷ [])

abbrev loading : View ℕ
loading = progress name (some 50) true

valid_results : validate host results ≡ ok tt
unfolding validate superspace.Extensions.Policy.names superspace.Extensions.Package.valid_identifier
    superspace.Base.Text.as_bytes superspace.Base.Text.trim
valid_results = refl

two_items : validate host (list (item ∷ item ∷ [])) ≡ err duplicate
unfolding validate superspace.Extensions.Policy.names
two_items = refl

run-Keeps_example :
    Keeps host [] (run host (pushing results ∷ pushing loading ∷ popping ∷ popping ∷ []) [])
run-Keeps_example =
    run-Keeps host (pushing results ∷ pushing loading ∷ popping ∷ popping ∷ []) []
      (record { safe = tt; bounded = omega arith })

run_pops : run host (pushing results ∷ pushing loading ∷ popping ∷ popping ∷ []) [] ≡ results ∷ []
unfolding run pop push superspace.Base.Text.trim superspace.Extensions.Policy.names
    superspace.Extensions.Package.valid_identifier superspace.Base.Text.as_bytes
run_pops = refl

pop-push_example : pop host (loading ∷ results ∷ []) ≡ (results ∷ [], some loading)
unfolding push superspace.Base.Text.trim
pop-push_example = pop-push host loading results [] (loading ∷ results ∷ []) refl
