-- ===== src/Libc/Stdio/Tidy.antt =====
-- The use of a file: opened once, read only while it is open, closed once.
use text.Mathlib.Text.{◌==◌ as str_eq}
use mathlib.Core.List.{append_assoc, append-nil}
use monitor_program.Base.{
  ℕ, zero, suc, ◌-◌, ◌≤◌, ◌≡◌, refl, sym, ap, ◌∙◌, arith, Bool, true, false, not, ◌&&◌, inl, inr,
  List, [], ◌∷◌, ◌++◌, Bytes, String, All, length,
}
use monitor_program.Libc.Stream.{take_line, fgets, read_rounds, read_lines}
use monitor_program.Libc.Stream.Rounds.{rest_shorter}
use monitor_program.Libc.Stdio.{
  FileCall, opened, line_read, closed, system_error, error_message, printed, Next-cases, Round,
  read_while, read_all, said,
}

-- Whether the calls read only from an open file, close it once, and open no other.
unfoldable pub tidy : Bool → List FileCall → Bool
tidy held [] = not held
tidy held (opened path ok ∷ cs) = false
tidy held (line_read line ∷ cs) = held && tidy held cs
tidy held (closed ∷ cs) = held && tidy false cs
tidy held (c ∷ cs) = tidy held cs

-- Whether the calls begin with opening `path`, and are tidy with the file that this gives.
unfoldable pub uses : String → List FileCall → Bool
unfolding tidy
uses path (opened p ok ∷ cs) = str_eq p path && tidy ok cs
uses path cs = false

abbrev pub IsMessage : FileCall → Type 0
IsMessage (system_error m) = Unit {0}
IsMessage (error_message m) = Unit {0}
IsMessage (printed m n) = Unit {0}
IsMessage c = ⊥

-- The messages among the calls.
unfoldable pub messages : List FileCall → List FileCall
messages [] = []
messages (opened path ok ∷ cs) = messages cs
messages (line_read line ∷ cs) = messages cs
messages (closed ∷ cs) = messages cs
messages (c ∷ cs) = c ∷ messages cs

tidy-messages :
    (held : Bool) (ms cs : List FileCall) → All IsMessage ms → tidy held (ms ++ cs) ≡ tidy held cs
unfolding tidy
tidy-messages held [] cs h = refl
tidy-messages held (system_error m ∷ ms) cs (h, hs) = tidy-messages held ms cs hs
tidy-messages held (error_message m ∷ ms) cs (h, hs) = tidy-messages held ms cs hs
tidy-messages held (printed m n ∷ ms) cs (h, hs) = tidy-messages held ms cs hs
tidy-messages held (c ∷ ms) cs (h, hs) = absurd h

messages-append :
    (ms cs : List FileCall) → All IsMessage ms → messages (ms ++ cs) ≡ ms ++ messages cs
unfolding messages
messages-append [] cs h = refl
messages-append (system_error m ∷ ms) cs (h, hs) =
    ap (λ (rest : List FileCall). system_error m ∷ rest) (messages-append ms cs hs)
messages-append (error_message m ∷ ms) cs (h, hs) =
    ap (λ (rest : List FileCall). error_message m ∷ rest) (messages-append ms cs hs)
messages-append (printed m n ∷ ms) cs (h, hs) =
    ap (λ (rest : List FileCall). printed m n ∷ rest) (messages-append ms cs hs)
messages-append (c ∷ ms) cs (h, hs) = absurd h

-- A body that calls nothing says nothing.
module _ {S : Type 0} (body : Round S) (quiet : (line : Bytes) (v : S) → (body line v).0 ≡ []) where
  pub quiet-messages : (line : Bytes) (v : S) → All IsMessage (body line v).0
  quiet-messages line v = rw (quiet line v) tt

  pub said-quiet : (lines : List Bytes) (v : S) → said body lines v ≡ []
  unfolding said
  said-quiet [] v = refl
  said-quiet (line ∷ lines) v = elim (Next-cases (body line v).1) [
    | inl (w, e) ↦ rw (e, said) (quiet line v)
    | inr (w, e) ↦ rw (e, said, quiet line v) (said-quiet lines w)
  ]

module _ {S : Type 0} (body : Round S)
    (only_messages : (line : Bytes) (v : S) → All IsMessage (body line v).0) where
  tidy-read_while :
      (size fuel : ℕ) (s : Bytes) (v : S) (cs : List FileCall)
      → tidy true ((read_while body size fuel s v).0 ++ cs) ≡ tidy true cs
  unfolding read_while fgets tidy
  tidy-read_while size zero s v cs = refl
  tidy-read_while size (suc fuel) [] v cs = refl
  tidy-read_while size (suc fuel) (c ∷ s) v cs =
      let r = take_line (size - 1) (c ∷ s) in
      let did = body r.0 v in
      elim (Next-cases did.1) [
        | inl (w, e) ↦ rw (e, read_while) (tidy-messages true did.0 cs (only_messages r.0 v))
        | inr (w, e) ↦
            let rest = (read_while body size fuel r.1 w).0 in
            rw (e, read_while, append_assoc did.0 rest cs)
              (tidy-messages true did.0 (rest ++ cs) (only_messages r.0 v)
                ∙ tidy-read_while size fuel r.1 w cs)
      ]

  messages-read_while :
      (size fuel : ℕ) (s : Bytes) (v : S) (cs : List FileCall)
      → 2 ≤ size
      → length s ≤ fuel
      → messages ((read_while body size (suc fuel) s v).0 ++ cs)
        ≡ said body (read_rounds size fuel s) v ++ messages cs
  unfolding read_while read_rounds said fgets messages
  messages-read_while size zero [] v cs big h = refl
  messages-read_while size (suc fuel) [] v cs big h = refl
  messages-read_while size zero (c ∷ s) v cs big h = absurd (omega arith)
  messages-read_while size (suc fuel) (c ∷ s) v cs big h =
      let r = take_line (size - 1) (c ∷ s) in
      let did = body r.0 v in
      elim (Next-cases did.1) [
        | inl (w, e) ↦ rw (e, read_while, said) (messages-append did.0 cs (only_messages r.0 v))
        | inr (w, e) ↦
            let rest = (read_while body size (suc fuel) r.1 w).0 in
            let said_then = said body (read_rounds size fuel r.1) w in
            rw
              (
                e,
                read_while,
                said,
                append_assoc did.0 rest cs,
                append_assoc did.0 said_then (messages cs),
              )
              (messages-append did.0 (rest ++ cs) (only_messages r.0 v)
                ∙ ap (λ (k : List FileCall). did.0 ++ k)
                    (messages-read_while size fuel r.1 w cs big (rest_shorter size fuel c s big h)))
      ]

  -- A function that opens a file, runs the loop on it, closes it and then reports at most.
  module _ (path : String) (size : ℕ) (s : Bytes) (v : S) (after : List FileCall)
      (reports : All IsMessage after) where
    abbrev calls : List FileCall
    calls = opened path true ∷ ((read_all body size s v).0 ++ (closed ∷ after))

    pub uses-loop : str_eq path path ≡ true → uses path calls ≡ true
    unfolding uses
    uses-loop same =
        rw (same, tidy-read_while size (suc (length s)) s v (closed ∷ after))
          (ap (λ (rest : List FileCall). tidy false rest) (sym (append-nil after))
            ∙ tidy-messages false after [] reports)

    pub messages-loop : 2 ≤ size → messages calls ≡ said body (read_lines size s) v ++ after
    unfolding messages read_lines
    messages-loop big =
        messages-read_while size (length s) s v (closed ∷ after) big (omega arith)
        ∙ ap (λ (k : List FileCall). said body (read_lines size s) v ++ k)
            (ap messages (sym (append-nil after))
              ∙ messages-append after [] reports
              ∙ append-nil after)
