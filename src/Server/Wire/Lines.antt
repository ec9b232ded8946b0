-- ===== src/Server/Wire/Lines.antt =====
-- A reader of server-sent events, for what src/server.ts sends: a line ends at a line feed or a carriage return, a
-- line that begins with `data: ` is data, and an empty line ends an event.
use l0_worker.Base.{
  ℕ, Bool, ◌||◌, Option, none, some, List, [], ◌∷◌, ◌++◌, arith, ◌≡◌, ◌≢◌, sym, ap, All,
  append_assoc, append-nil, eqb, if◌then◌else◌,
}
use l0_worker.Text.{codes, begins}

abbrev pub line_end : ℕ → Bool
line_end c = eqb c 10 || eqb c 13

abbrev drop_six : List ℕ → List ℕ
drop_six (a ∷ b ∷ c ∷ d ∷ e ∷ f ∷ cs) = cs
drop_six cs = []

-- Data on a further line comes after a line feed.
abbrev joined : Option (List ℕ) → List ℕ → List ℕ
joined none cs = cs
joined (some d) cs = d ++ 10 ∷ cs

-- The data after a line that is not empty.
unfoldable pub add_line : Option (List ℕ) → List ℕ → Option (List ℕ)
unfolding begins
add_line held line =
    if begins (codes "data: ") line then some (joined held (drop_six line)) else held

abbrev pub dispatched : Option (List ℕ) → List (List ℕ)
dispatched none = []
dispatched (some d) = d ∷ []

-- The events of a text, from data that is held and a line that is begun; what is not ended is no event.
unfoldable pub read : Option (List ℕ) → List ℕ → List ℕ → List (List ℕ)
unfolding add_line
read held line [] = []
read held [] (c ∷ cs) =
    let on = read held (c ∷ []) cs in
    let after = read none [] cs in if line_end c then dispatched held ++ after else on
read held (l ∷ ls) (c ∷ cs) =
    let on = read held (l ∷ ls ++ c ∷ []) cs in
    let after = read (add_line held (l ∷ ls)) [] cs in if line_end c then after else on

unfoldable pub read_stream : List ℕ → List (List ℕ)
unfolding read
read_stream text = read none [] text

abbrev pub NoBreak : List ℕ → Type 0
NoBreak = All (λ c. (c ≢ 10) × (c ≢ 13))

-- A line without a break is read to its end.
pub read_line :
    (held : Option (List ℕ)) (l : ℕ) (ls xs rest : List ℕ)
    → NoBreak xs
    → read held (l ∷ ls) (xs ++ 10 ∷ rest) ≡ read (add_line held (l ∷ ls ++ xs)) [] rest
unfolding read
read_line held l ls [] rest h =
    ap (λ (ys : List ℕ). read (add_line held (l ∷ ys)) [] rest) (sym (append-nil ls))
read_line held l ls (x ∷ xs) rest h =
    ground (arith, read_line held l (ls ++ x ∷ []) xs rest h.1, append_assoc ls (x ∷ []) xs)
