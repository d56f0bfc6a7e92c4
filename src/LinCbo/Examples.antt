-- ===== src/LinCbo/Examples.antt =====
-- The theorems on LinCbO applied to the sample context.
use fca4j_project.Base.{ℕ, ◌+◌, ◌<◌, ◌≡◌, ◌↔◌, true, List, [], ◌∷◌, arith}
use fca4j_project.Roaring.Model.{list_roaring}
use fca4j_project.Context.Examples.{sample, sample-IsContext, sample_size}
use fca4j_project.LinCbo.{lincbo_init, lincbo_step, lincbo_equals_until, lincbo_lin_closure_rc}
use fca4j_project.LinCbo.Prefix.{lincbo_equals_until_iff}
use fca4j_project.LinCbo.Total.{IsClosureOf, lin_closure-total}
use fca4j_project.LinCbo.Sound.{Returns}
use fca4j_project.LinCbo.Run.{lincbo-Returns}

abbrev one : List ℕ
one = 1 ∷ []

abbrev one_two : List ℕ
one_two = 1 ∷ 2 ∷ []

lincbo_equals_until_iff_example :
    (lincbo_equals_until one one_two 2 ≡ true)
    ↔ ((v : ℕ) → v < 2 → list_roaring.contains one v ≡ list_roaring.contains one_two v)
lincbo_equals_until_iff_example = lincbo_equals_until_iff one one_two 2

one-Below : (x : ℕ) → list_roaring.contains one x ≡ true → x < 2
one-Below x h = ground arith

lin_closure-total_example :
    IsClosureOf 2 one (lincbo_lin_closure_rc (2 + 1) (lincbo_init sample) one 2 one [])
unfolding lincbo_init
lin_closure-total_example =
    lin_closure-total (lincbo_init sample) one one 2 2 [] (λ i x h. ground arith) one-Below
      one-Below (λ x h. h)

lincbo-Returns_example :
    Returns sample (lincbo_step 3 (lincbo_init sample) list_roaring.create 0 list_roaring.create [])
lincbo-Returns_example = lincbo-Returns sample 3 sample-IsContext (omega (arith, sample_size))
