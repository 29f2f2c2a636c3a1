-- ===== src/Cgi/Decode/Laws.antt =====
-- What ac_cgi_decode makes of plain text and of text with every byte escaped, and how long its result is.
use another_c_library.Prelude.{
  ℕ, zero, suc, ◌+◌, ◌*◌, ◌/◌, ◌%◌, ◌≤◌, ◌<◌, ◌≢◌, ◌≡◌, refl, ap, ◌∙◌, arith, [], ◌∷◌, map,
  append-nil, All, some, ltb, if◌then◌else◌, Bytes, length, length-append, length-drop, drop,
}
use another_c_library.Cgi.Decode.{to_hex, printable, unescape, entity, entities, decode}

entities-length : (k : ℕ) (s : Bytes) → length (entities k s) ≤ length s
unfolding entities
entities-length k [] = omega arith
entities-length (suc k) (c ∷ s) = omega (arith, entities-length k s)
entities-length zero (c ∷ s) = ground (arith, entities-length (entity s).1 s, entities-length 0 s)

-- However many entities are replaced, the result is as long as the text that they were in: what it
-- should have lost is left behind it.
pub decode-length : (s : Bytes) → length (decode s) ≡ length (unescape s)
unfolding decode
decode-length s =
    let u = unescape s in
    omega (
      arith,
      length-append {0} (entities 0 u) (drop (length (entities 0 u)) u),
      length-drop {0} (length (entities 0 u)) u,
      entities-length 0 u,
    )

abbrev pub Free : ℕ → Bytes → Type 0
Free c = All (λ d. d ≢ c)

entities-Free : (u : Bytes) → Free 38 u → entities 0 u ≡ u
unfolding entities
entities-Free [] h = refl
entities-Free (c ∷ u) h = ground (arith, entities-Free u h.1, h.0)

drop-length : (u : Bytes) → drop (length u) u ≡ []
drop-length [] = refl
drop-length (c ∷ u) = drop-length u

-- Without an `&` the second loop changes nothing.
decode-unescape : (s : Bytes) → Free 38 (unescape s) → decode s ≡ unescape s
unfolding decode
decode-unescape s h =
    rw (entities-Free (unescape s) h, drop-length (unescape s)) (append-nil (unescape s))

unescape-Free : (s : Bytes) → Free 37 s → Free 43 s → unescape s ≡ s
unfolding unescape
unescape-Free [] p q = refl
unescape-Free (c ∷ []) p q = ground (arith, p.0, q.0)
unescape-Free (c ∷ d ∷ []) p q = ground (arith, p.0, q.0, unescape-Free (d ∷ []) p.1 q.1)
unescape-Free (c ∷ d ∷ e ∷ s) p q = ground (arith, p.0, q.0, unescape-Free (d ∷ e ∷ s) p.1 q.1)

-- Text without `%`, `+` and `&` is its own decoding.
pub decode-plain : (s : Bytes) → Free 37 s → Free 43 s → Free 38 s → decode s ≡ s
decode-plain s p q h = let e = unescape-Free s p q in decode-unescape s (rw e h) ∙ e

-- A byte in two upper-case hexadecimal digits, and every byte of a text with `%` before them.
abbrev pub digit : ℕ → ℕ
digit v = if ltb v 10 then v + 48 else v + 55

abbrev pub percent_encode : Bytes → Bytes
percent_encode [] = []
percent_encode (b ∷ bs) = 37 ∷ digit (b / 16) ∷ digit (b % 16) ∷ percent_encode bs

to_hex-digit : (v : ℕ) → v < 16 → to_hex (digit v) ≡ some v
unfolding to_hex
to_hex-digit v h = ground arith

unescape-percent_encode :
    (b : Bytes) → All (λ c. c < 256) b → unescape (percent_encode b) ≡ map printable b
unfolding unescape
unescape-percent_encode [] h = refl
unescape-percent_encode (c ∷ b) h =
    let e : c / 16 * 16 + c % 16 ≡ c = omega arith in
    rw (to_hex-digit (c / 16) (omega (arith, h.0)), to_hex-digit (c % 16) (omega arith), e)
      (ap (◌∷◌ (printable c)) (unescape-percent_encode b h.1))

Free-printable : (b : Bytes) → Free 38 b → Free 38 (map printable b)
Free-printable [] h = h
Free-printable (c ∷ b) h = (ground (arith, h.0), Free-printable b h.1)

-- A text of which every byte is escaped, without an `&`, comes back, its control characters but 1
-- as blanks.
pub decode-percent_encode :
    (b : Bytes) → All (λ c. c < 256) b → Free 38 b → decode (percent_encode b) ≡ map printable b
decode-percent_encode b h f =
    let e = unescape-percent_encode b h in
    decode-unescape (percent_encode b) (rw e (Free-printable b f)) ∙ e
