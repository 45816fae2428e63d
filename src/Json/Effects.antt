-- ===== src/Json/Effects.antt =====
-- What the calls of `send_metrics_as_json` do with the files, the object, its text and the pipe.
use text.Mathlib.TextEquality.{eq_iff}
use monitor_program.Base.{
  Bool, true, false, not, ◌&&◌, none, some, List, [], ◌∷◌, ◌++◌, Bytes, String, ◌≡◌, refl, ap, ◌∙◌,
  arith,
}
use monitor_program.Libc.Stdio.{
  FileCall, opened, line_read, closed, system_error, error_message, printed,
}
use monitor_program.Libc.Stdio.Tidy.{tidy, uses, messages}
use monitor_program.Json.{
  JsonCall, reading, readings, create_object, print_object, open_pipe, write_line, flush_pipe,
  close_pipe, pipe_error, free_text, delete_object,
}

-- Whether the calls use the object, its text, the pipe and a file of /proc only while they are
-- there, open a file only while no other is open, and leave none of them, from those that are there
-- already.
unfoldable pub releases : Bool → Bool → Bool → Bool → List JsonCall → Bool
releases object text pipe file [] = (not object && not text) && (not pipe && not file)
releases object text pipe file (reading (opened path ok) ∷ cs) =
    not file && releases object text pipe ok cs
releases object text pipe file (reading (line_read line) ∷ cs) =
    file && releases object text pipe file cs
releases object text pipe file (reading closed ∷ cs) = file && releases object text pipe false cs
releases object text pipe file (reading c ∷ cs) = releases object text pipe file cs
releases object text pipe file (create_object ∷ cs) = not object && releases true text pipe file cs
releases object text pipe file (print_object none ∷ cs) =
    object && releases object text pipe file cs
releases object text pipe file (print_object (some t) ∷ cs) =
    (object && not text) && releases object true pipe file cs
releases object text pipe file (open_pipe opens ∷ cs) =
    (not pipe && not file) && releases object text opens file cs
releases object text pipe file (write_line t ∷ cs) =
    (text && pipe) && releases object text pipe file cs
releases object text pipe file (flush_pipe ∷ cs) = pipe && releases object text pipe file cs
releases object text pipe file (close_pipe ∷ cs) = pipe && releases object text false file cs
releases object text pipe file (pipe_error ∷ cs) = releases object text pipe file cs
releases object text pipe file (free_text ∷ cs) = text && releases object false pipe file cs
releases object text pipe file (delete_object ∷ cs) = object && releases false text pipe file cs

-- The lines written to the pipe.
unfoldable pub written : List JsonCall → List Bytes
written [] = []
written (write_line t ∷ cs) = t ∷ written cs
written (c ∷ cs) = written cs

-- The files that the readers open, in order.
unfoldable pub files_read : List JsonCall → List String
files_read [] = []
files_read (reading (opened path ok) ∷ cs) = path ∷ files_read cs
files_read (c ∷ cs) = files_read cs

-- The messages, those of the readers and that of the pipe.
unfoldable pub shown : List JsonCall → List JsonCall
unfolding messages
shown [] = []
shown (reading c ∷ cs) = readings (messages (c ∷ [])) ++ shown cs
shown (pipe_error ∷ cs) = pipe_error ∷ shown cs
shown (c ∷ cs) = shown cs

pub written-append : (a b : List JsonCall) → written (a ++ b) ≡ written a ++ written b
unfolding written
written-append [] b = refl
written-append (write_line t ∷ cs) b = ap (λ (rest : List Bytes). t ∷ rest) (written-append cs b)
written-append (c ∷ cs) b = written-append cs b

pub files_read-append : (a b : List JsonCall) → files_read (a ++ b) ≡ files_read a ++ files_read b
unfolding files_read
files_read-append [] b = refl
files_read-append (reading (opened path ok) ∷ cs) b =
    ap (λ (rest : List String). path ∷ rest) (files_read-append cs b)
files_read-append (c ∷ cs) b = files_read-append cs b

pub shown-append : (a b : List JsonCall) → shown (a ++ b) ≡ shown a ++ shown b
unfolding shown messages
shown-append [] b = refl
shown-append (reading (opened path ok) ∷ cs) b = shown-append cs b
shown-append (reading (line_read line) ∷ cs) b = shown-append cs b
shown-append (reading closed ∷ cs) b = shown-append cs b
shown-append (reading c ∷ cs) b = ap (λ (ms : List JsonCall). reading c ∷ ms) (shown-append cs b)
shown-append (pipe_error ∷ cs) b = ap (λ (ms : List JsonCall). pipe_error ∷ ms) (shown-append cs b)
shown-append (c ∷ cs) b = shown-append cs b

-- Calls that leave nothing allocated or open can be followed by others.
pub releases-append :
    (object text pipe file : Bool) (a b : List JsonCall)
    → releases object text pipe file a ≡ true
    → releases object text pipe file (a ++ b) ≡ releases false false false false b
unfolding releases
releases-append object text pipe file [] b h = ground arith
releases-append object text pipe file (reading (opened path ok) ∷ cs) b h =
    ground (arith, releases-append object text pipe ok cs b)
releases-append object text pipe file (reading (line_read line) ∷ cs) b h =
    ground (arith, releases-append object text pipe file cs b)
releases-append object text pipe file (reading closed ∷ cs) b h =
    ground (arith, releases-append object text pipe false cs b)
releases-append object text pipe file (reading (system_error m) ∷ cs) b h =
    releases-append object text pipe file cs b h
releases-append object text pipe file (reading (error_message m) ∷ cs) b h =
    releases-append object text pipe file cs b h
releases-append object text pipe file (reading (printed m n) ∷ cs) b h =
    releases-append object text pipe file cs b h
releases-append object text pipe file (create_object ∷ cs) b h =
    ground (arith, releases-append true text pipe file cs b)
releases-append object text pipe file (print_object none ∷ cs) b h =
    ground (arith, releases-append object text pipe file cs b)
releases-append object text pipe file (print_object (some t) ∷ cs) b h =
    ground (arith, releases-append object true pipe file cs b)
releases-append object text pipe file (open_pipe opens ∷ cs) b h =
    ground (arith, releases-append object text opens file cs b)
releases-append object text pipe file (write_line t ∷ cs) b h =
    ground (arith, releases-append object text pipe file cs b)
releases-append object text pipe file (flush_pipe ∷ cs) b h =
    ground (arith, releases-append object text pipe file cs b)
releases-append object text pipe file (close_pipe ∷ cs) b h =
    ground (arith, releases-append object text false file cs b)
releases-append object text pipe file (pipe_error ∷ cs) b h =
    releases-append object text pipe file cs b h
releases-append object text pipe file (free_text ∷ cs) b h =
    ground (arith, releases-append object false pipe file cs b)
releases-append object text pipe file (delete_object ∷ cs) b h =
    ground (arith, releases-append false text pipe file cs b)

-- The calls of a reader, with others behind them.
releases-tidy :
    (object text pipe file : Bool) (cs : List FileCall) (rest : List JsonCall)
    → tidy file cs ≡ true
    → releases object text pipe file (readings cs ++ rest) ≡ releases object text pipe false rest
unfolding releases tidy
releases-tidy object text pipe true [] rest h = absurd (ground (arith, h))
releases-tidy object text pipe false [] rest h = refl
releases-tidy object text pipe file (opened path ok ∷ cs) rest h = absurd (ground (arith, h))
releases-tidy object text pipe true (line_read line ∷ cs) rest h =
    releases-tidy object text pipe true cs rest h
releases-tidy object text pipe false (line_read line ∷ cs) rest h = absurd (ground (arith, h))
releases-tidy object text pipe true (closed ∷ cs) rest h =
    releases-tidy object text pipe false cs rest h
releases-tidy object text pipe false (closed ∷ cs) rest h = absurd (ground (arith, h))
releases-tidy object text pipe file (system_error m ∷ cs) rest h =
    releases-tidy object text pipe file cs rest h
releases-tidy object text pipe file (error_message m ∷ cs) rest h =
    releases-tidy object text pipe file cs rest h
releases-tidy object text pipe file (printed m n ∷ cs) rest h =
    releases-tidy object text pipe file cs rest h

shown-readings :
    (cs : List FileCall) (rest : List JsonCall)
    → shown (readings cs ++ rest) ≡ readings (messages cs) ++ shown rest
unfolding shown messages
shown-readings [] rest = refl
shown-readings (opened path ok ∷ cs) rest = shown-readings cs rest
shown-readings (line_read line ∷ cs) rest = shown-readings cs rest
shown-readings (closed ∷ cs) rest = shown-readings cs rest
shown-readings (c ∷ cs) rest = ap (λ (ms : List JsonCall). reading c ∷ ms) (shown-readings cs rest)

pub shown-quiet :
    (cs : List FileCall)
    → messages cs ≡ []
    → (rest : List JsonCall) → shown (readings cs ++ rest) ≡ shown rest
shown-quiet cs quiet rest = rw (shown-readings cs rest, quiet) refl

written-readings :
    (cs : List FileCall) (rest : List JsonCall) → written (readings cs ++ rest) ≡ written rest
unfolding written
written-readings [] rest = refl
written-readings (c ∷ cs) rest = written-readings cs rest

files_read-tidy :
    (file : Bool) (cs : List FileCall) (rest : List JsonCall)
    → tidy file cs ≡ true
    → files_read (readings cs ++ rest) ≡ files_read rest
unfolding files_read tidy
files_read-tidy file [] rest h = refl
files_read-tidy file (opened path ok ∷ cs) rest h = absurd (ground (arith, h))
files_read-tidy file (line_read line ∷ cs) rest h = files_read-tidy file cs rest (ground (arith, h))
files_read-tidy file (closed ∷ cs) rest h = files_read-tidy false cs rest (ground (arith, h))
files_read-tidy file (system_error m ∷ cs) rest h = files_read-tidy file cs rest h
files_read-tidy file (error_message m ∷ cs) rest h = files_read-tidy file cs rest h
files_read-tidy file (printed m n ∷ cs) rest h = files_read-tidy file cs rest h

module _ (object text pipe : Bool) (path : String) where
  -- What the calls of a reader change: a file is read more.
  pub record Reads (cs : List FileCall) : Type 0 where
    pub released :
        (rest : List JsonCall)
        → releases object text pipe false (readings cs ++ rest)
          ≡ releases object text pipe false rest
    pub lines : (rest : List JsonCall) → written (readings cs ++ rest) ≡ written rest
    pub files : (rest : List JsonCall) → files_read (readings cs ++ rest) ≡ path ∷ files_read rest

  pub uses-Reads : (cs : List FileCall) → uses path cs ≡ true → Reads cs
  unfolding uses
  uses-Reads (opened p ok ∷ cs) h =
      let tidied : tidy ok cs ≡ true = ground (arith, h) in
      let same : p ≡ path = (eq_iff p path).0 (ground (arith, h)) in
      record {
        released = unfold releases in λ rest. releases-tidy object text pipe ok cs rest tidied;
        lines = written-readings (opened p ok ∷ cs);
        files =
            unfold files_read in
            λ rest.
              ap (λ (fs : List String). p ∷ fs) (files_read-tidy ok cs rest tidied)
              ∙ ap (λ q. q ∷ files_read rest) same;
      }
  uses-Reads [] h = absurd (ground (arith, h))
  uses-Reads (line_read line ∷ cs) h = absurd (ground (arith, h))
  uses-Reads (closed ∷ cs) h = absurd (ground (arith, h))
  uses-Reads (system_error m ∷ cs) h = absurd (ground (arith, h))
  uses-Reads (error_message m ∷ cs) h = absurd (ground (arith, h))
  uses-Reads (printed m n ∷ cs) h = absurd (ground (arith, h))
