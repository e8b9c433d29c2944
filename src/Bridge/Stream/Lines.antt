-- ===== src/Bridge/Stream/Lines.antt =====
-- What the scanner makes of a text of lines that are not too long.
use xscope_hub.Prelude.{
  ℕ, ◌≤◌, Bytes, true, false, List, [], ◌∷◌, ◌++◌, ◌==◌, leb, length, ◌≡◌, ◌≢◌, refl, ap, arith,
  All,
}
use xscope_hub.Bridge.Stream.{split_lines, drop_cr, scanned, scan_lines}

-- A line has no line feed and no carriage return, and fits in the buffer of `bufio.Scanner`.
abbrev pub IsLine : Bytes → Type 0
IsLine line = All (λ (c : ℕ). (c ≢ 10) × (c ≢ 13)) line × (length line ≤ 65535)

-- Lines as a text, a line feed behind each.
unfoldable pub text_of : List Bytes → Bytes
text_of [] = []
text_of (line ∷ lines) = line ++ 10 ∷ text_of lines

split_line :
    (line rest : Bytes)
    → All (λ (c : ℕ). (c ≢ 10) × (c ≢ 13)) line
    → split_lines (line ++ 10 ∷ rest) ≡ line ∷ split_lines rest
unfolding split_lines
split_line [] rest h = refl
split_line (c ∷ line) rest ((other, _), later) =
    let miss : (c == 10) ≡ false = ground (arith, other) in
    rw (miss, split_lines) (rw (split_line line rest later) refl)

drop_cr_none : (line : Bytes) → All (λ (c : ℕ). (c ≢ 10) × (c ≢ 13)) line → drop_cr line ≡ line
unfolding drop_cr
drop_cr_none [] h = refl
drop_cr_none (c ∷ []) ((_, other), _) = ground (arith, other)
drop_cr_none (c ∷ d ∷ line) (_, later) = ap (λ l. c ∷ l) (drop_cr_none (d ∷ line) later)

pub scan_lines-text_of :
    (lines : List Bytes) → All IsLine lines → scan_lines (text_of lines) ≡ lines
unfolding split_lines scanned text_of
scan_lines-text_of [] h = refl
scan_lines-text_of (line ∷ lines) ((plain, short), later) =
    let fits : leb (length line) 65535 ≡ true = ground (arith, short) in
    rw (split_line line (text_of lines) plain)
      (rw (fits, drop_cr_none line plain, scan_lines-text_of lines later) refl)
