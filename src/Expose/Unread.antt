-- ===== src/Expose/Unread.antt =====
-- The calls of the functions `update_*` without those of their readers.
use monitor_program.Base.{List, [], ◌∷◌, ◌++◌, ◌≡◌, refl}
use monitor_program.Double.{Double}
use monitor_program.Libc.Stdio.{FileCall}
use monitor_program.Expose.{Call, reads, read_calls}

module _ (F : Double) where
  unfoldable pub unread : List (Call F) → List (Call F)
  unread [] = []
  unread (reads c ∷ cs) = unread cs
  unread (c ∷ cs) = c ∷ unread cs

  pub unread-read_calls :
      (fs : List FileCall) (rest : List (Call F)) → unread (read_calls F fs ++ rest) ≡ unread rest
  unfolding unread
  unread-read_calls [] rest = refl
  unread-read_calls (f ∷ fs) rest = unread-read_calls fs rest
