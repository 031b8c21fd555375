-- ===== src/Server/Lines.antt =====
-- `bufio.Scanner` with `ScanLines`: lines end in a line feed, a carriage return before it is dropped,
-- and the last line needs no line feed. A line of 64 KiB or more stops the scan.
use rate_limiter.Base.{ℕ, suc, true, false, List, [], ◌∷◌, ◌++◌, Bytes, leb, ◌==◌, if◌then◌else◌}

abbrev pub newline : ℕ
newline = 10

abbrev carriage_return : ℕ
carriage_return = 13

abbrev max_token : ℕ
max_token = 65536

-- A line without its carriage return at the end.
unfoldable pub drop_cr : Bytes → Bytes
drop_cr [] = []
drop_cr (c ∷ []) = if c == carriage_return then [] else c ∷ []
drop_cr (c ∷ d ∷ s) = c ∷ drop_cr (d ∷ s)

-- `cur` is what has been read of the current line, and `size` its length.
unfoldable pub scan_from : Bytes → Bytes → ℕ → List Bytes
unfolding drop_cr
scan_from [] cur size = if size == 0 then [] else drop_cr cur ∷ []
scan_from (c ∷ s) cur size = elim (c == newline) [
  | true ↦ let rest = scan_from s [] 0 in drop_cr cur ∷ rest
  | false ↦
      let rest = scan_from s (cur ++ c ∷ []) (suc size) in
      if leb max_token (suc size) then [] else rest
]

unfoldable pub scan_lines : Bytes → List Bytes
unfolding scan_from
scan_lines s = scan_from s [] 0
