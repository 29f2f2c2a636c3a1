-- ===== src/Cgi/Decode.antt =====
-- ac_cgi_decode of src/ac-connect/ac_cgi.c: the escapes of addresses, and then the entities of HTML
-- in what they stand for.
pub mod Laws
use another_c_library.Prelude.{
  ℕ, zero, suc, ◌+◌, ◌-◌, ◌*◌, Bool, true, false, not, ◌&&◌, List, [], ◌∷◌, ◌++◌, Option, none,
  some, leb, ltb, ◌==◌, if◌then◌else◌, Bytes, length, get_or, drop,
}

-- `none` is -1.
unfoldable pub to_hex : ℕ → Option ℕ
to_hex v =
    if leb 48 v && leb v 57
    then some (v - 48)
    else if leb 97 v && leb v 102
    then some (v - 97 + 10)
    else if leb 65 v && leb v 70
    then some (v - 65 + 10)
    else none

-- The byte that two digits stand for; the control characters but 1 are made blanks.
abbrev pub printable : ℕ → ℕ
printable v1 = if not (v1 == 1) && ltb v1 32 then 32 else v1

abbrev both : Option ℕ → Option ℕ → Option ℕ
both (some v1) (some v2) = some (v1 * 16 + v2)
both (some v1) none = none
both none v = none

-- A digit behind the end is read as the terminator, and `-1` comes of it.
unfoldable pub unescape : Bytes → Bytes
unfolding to_hex
unescape [] = []
unescape (c ∷ []) = (if c == 43 then 32 else c) ∷ []
unescape (c ∷ d ∷ []) = (if c == 43 then 32 else c) ∷ unescape (d ∷ [])
unescape (c ∷ d ∷ e ∷ s) =
    let copied = (if c == 43 then 32 else c) ∷ unescape (d ∷ e ∷ s) in
    let skipped = unescape s in
    if c == 37
    then elim (both (to_hex d) (to_hex e)) [ some v1 ↦ printable v1 ∷ skipped | none ↦ copied ]
    else copied

-- What is written for an `&` that has `p` behind it, and how much of `p` it takes.
unfoldable pub entity : Bytes → ℕ × ℕ
entity p =
    if get_or p 0 0 == 97
    then if get_or p 1 0 == 112 && get_or p 2 0 == 111 && get_or p 3 0 == 115 && get_or p 4 0 == 59
      then (39, 5)
      else if get_or p 1 0 == 109 && get_or p 2 0 == 112 && get_or p 3 0 == 59
      then (38, 4)
      else (38, 0)
    else if get_or p 0 0 == 103 && get_or p 1 0 == 116 && get_or p 2 0 == 59
    then (62, 3)
    else if get_or p 0 0 == 108 && get_or p 1 0 == 116 && get_or p 2 0 == 59
    then (60, 3)
    else if get_or p 0 0 == 113
        && get_or p 1 0 == 117
        && get_or p 2 0 == 111
        && get_or p 3 0 == 116
        && get_or p 4 0 == 59
    then (34, 5)
    else (38, 0)

-- The second loop, once it has passed over so many bytes.
unfoldable pub entities : ℕ → Bytes → Bytes
unfolding entity
entities k [] = []
entities (suc k) (c ∷ s) = entities k s
entities zero (c ∷ s) = if c == 38 then (entity s).0 ∷ entities (entity s).1 s else c ∷ entities 0 s

-- The second loop writes over what the first one wrote, and no terminator.
unfoldable pub decode : Bytes → Bytes
unfolding entities unescape
decode s = let u = unescape s in let w = entities 0 u in w ++ drop (length w) u
