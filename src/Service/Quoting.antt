-- ===== src/Service/Quoting.antt =====
-- quoteSystemdArgument of service_linux.go, over the characters: an argument of the unit's ExecStart.
use connectorhost.Common.{
  ℕ, ◌≡◌, refl, sym, ap, ◌∙◌, false, ◌||◌, Option, none, some, List, [], ◌∷◌, ◌++◌, ◌==◌, nat_eq,
  arith, if◌then◌else◌, some-eq, append_assoc,
}
use connectorhost.Text.{contains}

-- The pairs of the replacer
unfoldable pub escape : ℕ → List ℕ
escape c =
    if c == b'\\'
    then b'\\' ∷ b'\\' ∷ []
    else if c == 34
    then b'\\' ∷ 34 ∷ []
    else if c == 10
    then b'\\' ∷ b'n' ∷ []
    else if c == 13
    then b'\\' ∷ b'r' ∷ []
    else if c == 9
    then b'\\' ∷ b't' ∷ []
    else if c == b'$'
    then b'$' ∷ b'$' ∷ []
    else if c == b'%'
    then b'%' ∷ b'%' ∷ []
    else c ∷ []

unfoldable pub replace : List ℕ → List ℕ
unfolding escape
replace [] = []
replace (c ∷ cs) = escape c ++ replace cs

-- quoteSystemdArgument
unfoldable pub quote_systemd_argument : List ℕ → List ℕ
unfolding replace
quote_systemd_argument argument = 34 ∷ replace argument ++ 34 ∷ []

-- How systemd reads a quoted argument, by systemd.syntax(7) and systemd.service(5): a backslash begins
-- an escape, "$$" stands for "$" and "%%" for "%"; the text ends at the closing quote. A single "$" or
-- "%", which would begin a variable or a specifier, and a line break are not read as text.
meaning : ℕ → Option ℕ
meaning c =
    if c == b'n'
    then some 10
    else if c == b'r'
    then some 13
    else if c == b't'
    then some 9
    else if c == b'\\' || c == 34
    then some c
    else none

led_by : Option ℕ → Option (List ℕ) → Option (List ℕ)
led_by (some c) (some rest) = some (c ∷ rest)
led_by _ _ = none

unquote : List ℕ → Option (List ℕ)
unfolding meaning led_by
unquote [] = none
unquote (c ∷ []) = if c == 34 then some [] else none
unquote (c ∷ d ∷ rest) =
    let further = unquote rest in
    let next = unquote (d ∷ rest) in
    if c == 34
    then none
    else if c == b'\\'
    then led_by (meaning d) further
    else if c == b'$' || c == b'%'
    then (if d == c then led_by (some c) further else none)
    else if c == 10 || c == 13
    then none
    else led_by (some c) next

unfoldable pub read_quoted : List ℕ → Option (List ℕ)
unfolding unquote
read_quoted [] = none
read_quoted (c ∷ text) = if c == 34 then unquote text else none

unquote-escape :
    (c d : ℕ) (rest : List ℕ)
    → unquote (escape c ++ (d ∷ rest)) ≡ led_by (some c) (unquote (d ∷ rest))
unfolding escape unquote meaning led_by
unquote-escape c d rest = ground arith

-- The text of an argument behind the opening quote
abbrev behind : List ℕ → List ℕ
behind a = replace a ++ 34 ∷ []

append_cons : (l : List ℕ) (x : ℕ) → (d : ℕ) × (rest : List ℕ) × ((l ++ x ∷ []) ≡ (d ∷ rest))
append_cons [] x = (x, [], refl)
append_cons (d ∷ rest) x = (d, rest ++ x ∷ [], refl)

unquote-behind : (a : List ℕ) → unquote (behind a) ≡ some a
unfolding replace
unquote-behind [] = unfold unquote in refl
unquote-behind (c ∷ a) =
    let (d, rest, e) = append_cons (replace a) 34 in
    ap unquote
      (append_assoc (escape c) (replace a) (34 ∷ []) ∙ ap (λ (x : List ℕ). escape c ++ x) e)
    ∙ unquote-escape c d rest
    ∙ ap (led_by (some c)) (ap unquote (sym e) ∙ unquote-behind a)
    ∙ (unfold led_by in refl)

contains-append : (x : ℕ) (a b : List ℕ) → contains x (a ++ b) ≡ (contains x a || contains x b)
unfolding contains
contains-append x [] b = refl
contains-append x (c ∷ a) b = ground (arith, contains-append x a b)

escape_break : (c : ℕ) → (contains 10 (escape c) ≡ false) × (contains 13 (escape c) ≡ false)
unfolding contains escape
escape_break c = ground arith

replace_break : (a : List ℕ) → (contains 10 (replace a) ≡ false) × (contains 13 (replace a) ≡ false)
unfolding replace contains
replace_break [] = (refl, refl)
replace_break (c ∷ a) =
    let (n, r) = escape_break c in
    let (ns, rs) = replace_break a in
    (
      rw (contains-append 10 (escape c) (replace a), n) ns,
      rw (contains-append 13 (escape c) (replace a), r) rs,
    )

-- A quoted argument is read back as the argument, and has no line feed and no carriage return, so it
-- cannot end the line of the unit file that it is in.
pub read_quoted-quote_systemd_argument :
    (a : List ℕ)
    → (read_quoted (quote_systemd_argument a) ≡ some a)
      × (contains 10 (quote_systemd_argument a) ≡ false)
      × (contains 13 (quote_systemd_argument a) ≡ false)
unfolding read_quoted quote_systemd_argument contains
read_quoted-quote_systemd_argument a =
    let (n, r) = replace_break a in
    (
      unquote-behind a,
      rw (contains-append 10 (replace a) (34 ∷ []), n) refl,
      rw (contains-append 13 (replace a) (34 ∷ []), r) refl,
    )

-- So it stands for one argument only.
quote_systemd_argument_injective :
    (a b : List ℕ) → quote_systemd_argument a ≡ quote_systemd_argument b → a ≡ b
quote_systemd_argument_injective a b e = some-eq (
    sym (read_quoted-quote_systemd_argument a).0
    ∙ ap read_quoted e
    ∙ (read_quoted-quote_systemd_argument b).0)
