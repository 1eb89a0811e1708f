-- ===== src/Config/Parser/Lines.antt =====
-- How `parseConfig` cuts a text into lines and trims them.
pub mod Visible
use l4_load_balancer_with_xd.Prelude.{
  ℕ, zero, suc, ◌+◌, ◌-◌, ◌≤◌, ◌<◌, ◌≡◌, ◌≢◌, refl, sym, ap, ◌∙◌, Bool, true, false, not, ◌&&◌,
  ◌||◌, Option, none, some, List, [], ◌∷◌, ◌++◌, arith, ltb, leb, ◌==◌, if◌then◌else◌, drop, length,
  length-drop,
}
use l4_load_balancer_with_xd.Config.Bytes.{
  Bytes, find_byte, before, contains, Lacks, find_byte-append, find_byte-Lacks, take-length_append,
  drop-length_append,
}

abbrev pub is_nil : Bytes → Bool
is_nil [] = true
is_nil (x ∷ xs) = false

-- `find_first_not_of(" \t")` and `find_last_not_of(" \t")`
abbrev pub is_blank : ℕ → Bool
is_blank c = c == b' ' || c == b'\t'

trim_start : Bytes → Bytes
trim_start [] = []
trim_start (c ∷ cs) = let rest = trim_start cs in if is_blank c then rest else c ∷ cs

trim_end : Bytes → Bytes
trim_end [] = []
trim_end (c ∷ cs) = let rest = trim_end cs in if is_blank c && is_nil rest then [] else c ∷ rest

unfoldable pub trim : Bytes → Bytes
unfolding trim_start trim_end
trim cs = trim_end (trim_start cs)

-- `find("\xEF\xBB\xBF") != npos`
has_bom : Bytes → Bool
has_bom (a ∷ b ∷ c ∷ cs) = a == 0xEF && (b == 0xBB && c == 0xBF) || has_bom (b ∷ c ∷ cs)
has_bom _ = false

unfoldable pub has_forbidden_bytes : Bytes → Bool
unfolding has_bom
has_forbidden_bytes line = contains 0 line || (contains b'\r' line || has_bom line)

-- `if (!line.empty() && line.back() == '\r') line.remove_suffix(1)`
strip_cr : Bytes → Bytes
strip_cr [] = []
strip_cr (c ∷ []) = if c == b'\r' then [] else c ∷ []
strip_cr (c ∷ d ∷ cs) = c ∷ strip_cr (d ∷ cs)

-- The first line and the text after it.
cut_line : Option ℕ → Bytes → Bytes × Bytes
unfolding strip_cr
cut_line none text = (text, [])
cut_line (some newline) text = (strip_cr (before (some newline) text), drop (newline + 1) text)

unfoldable pub next_line : Bytes → Bytes × Bytes
unfolding cut_line
next_line text = cut_line (find_byte b'\n' text) text

cut_line-shorter :
    (newline : Option ℕ) (text : Bytes)
    → 0 < length text
    → length (cut_line newline text).1 < length text
unfolding cut_line
cut_line-shorter none text h = omega arith
cut_line-shorter (some i) text h = omega (arith, length-drop (i + 1) text)

-- The text after a line is shorter.
pub next_line-shorter : (text : Bytes) → 0 < length text → length (next_line text).1 < length text
unfolding next_line
next_line-shorter text h = cut_line-shorter (find_byte b'\n' text) text h
