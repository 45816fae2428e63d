-- ===== src/Main/Pauses.antt =====
-- The time that `main` sleeps.
use monitor_program.Base.{ℕ, ◌+◌, List, [], ◌∷◌, ◌++◌, ◌≡◌, refl, sym, ap, ◌∙◌, arith}
use monitor_program.Double.{Double}
use monitor_program.Expose.{Call, sleep}
use monitor_program.Expose.Init.{Faults, init_metrics}
use monitor_program.Main.Order.{silent, silent-init_metrics}

module _ (F : Double) where
  -- The seconds that the calls sleep.
  unfoldable pub slept : List (Call F) → ℕ
  slept [] = 0
  slept (sleep n ∷ cs) = n + slept cs
  slept (c ∷ cs) = slept cs

  pub slept-append : (a b : List (Call F)) → slept (a ++ b) ≡ slept a + slept b
  unfolding slept
  slept-append [] b = omega arith
  slept-append (sleep n ∷ cs) b = omega (arith, slept-append cs b)
  slept-append (c ∷ cs) b = slept-append cs b

  slept-silent : (cs : List (Call F)) → slept (silent F cs) ≡ slept cs
  unfolding slept silent
  slept-silent [] = refl
  slept-silent (sleep n ∷ cs) = ap (λ (k : ℕ). n + k) (slept-silent cs)
  slept-silent (c ∷ cs) = slept-silent cs

  pub slept-init_metrics : (faults : Faults) → slept (init_metrics F faults) ≡ 0
  unfolding slept silent init_metrics
  slept-init_metrics faults =
      sym (slept-silent (init_metrics F faults)) ∙ ap slept (silent-init_metrics F faults)

  pub slept-init_then :
      (faults : Faults) (cs : List (Call F)) → slept (init_metrics F faults ++ cs) ≡ slept cs
  slept-init_then faults cs =
      slept-append (init_metrics F faults) cs ∙ omega (arith, slept-init_metrics faults)
