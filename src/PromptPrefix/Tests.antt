-- ===== src/PromptPrefix/Tests.antt =====
-- Runs of the prefix parser, and the theorems about it at concrete files.
use preon_star.Base.{
  Bool, Bytes, List, [], arith, codes, length, not, refl, some, starts_with, true, ℕ, ◌%◌, ◌&&◌,
  ◌==◌, ◌↔◌, ◌∷◌, ◌≡◌, ◌≢◌,
}
use preon_star.PromptPrefix.{
  Memory, Turn, assistant, ends_in, err, finish, fuel, is_marker, marker_at, ok, parse, scan,
  skip_bom, strip, turn_at, turn_of, turns_from, user, wrong_role,
}
use preon_star.PromptPrefix.Lines.{RefusedAt}
use preon_star.PromptPrefix.Load.{File, Read, load, load-turns_iff, turns}
use preon_star.PromptPrefix.Parsed.{parse-IsScript, parse-RefusedAt, parse-ne-fuel}
use preon_star.PromptPrefix.RoundTrip.{IsWritable, parse-render, render}
use preon_star.PromptPrefix.Shape.{IsScript, of_not_marker}
use preon_star.PromptPrefix.Scanning.{IsUnbroken}

abbrev ample : Memory
ample = record { grow = λ n. true; copy = λ n. true }

abbrev script : List Turn
script =
    record { role = user; content = codes "Hi\nthere" }
    ∷ record { role = assistant; content = codes " hello" }
    ∷ []

abbrev text : Bytes
text = codes "USER: Hi\nthere\nASSISTANT:  hello\n"

abbrev lopsided : Bytes
lopsided = codes "USER: a\nb\nUSER: c\n"

render-script : render script ≡ text
unfolding render
render-script = refl

parse-text : parse ample text ≡ ok script
unfolding parse turns_from turn_at turn_of marker_at starts_with scan strip skip_bom finish
parse-text = refl

parse-lopsided : parse ample lopsided ≡ err (wrong_role 3 assistant)
unfolding parse turns_from turn_at turn_of marker_at starts_with scan strip skip_bom finish
parse-lopsided = refl

-- the first line of a content may start with a marker
parse-second_marker :
    parse ample (codes "USER: USER: a\nASSISTANT: b\n")
    ≡ ok (
        record { role = user; content = codes "USER: a" }
        ∷ record { role = assistant; content = codes "b" }
        ∷ [])
unfolding parse turns_from turn_at turn_of marker_at starts_with scan strip skip_bom finish
parse-second_marker = refl

-- the property by a test, for concrete contents
is_unbroken : Bytes → Bool
is_unbroken [] = true
is_unbroken (c ∷ s) = not (c == 10 && is_marker s) && is_unbroken s

is_unbroken_sound : (s : Bytes) → is_unbroken s ≡ true → IsUnbroken s
unfolding is_unbroken
is_unbroken_sound [] h = tt
is_unbroken_sound (c ∷ s) h =
    (λ e. of_not_marker s (ground (arith, h, e)), is_unbroken_sound s (ground (arith, h)))

script-IsWritable : IsWritable 0 script
unfolding is_unbroken marker_at starts_with ends_in
script-IsWritable = (
  record {
    in_turn = refl;
    not_empty = λ e. cc e;
    unbroken = is_unbroken_sound (codes "Hi\nthere") refl;
    no_nul = omega arith;
  },
  refl,
  (
    record {
      in_turn = refl;
      not_empty = λ e. cc e;
      unbroken = is_unbroken_sound (codes " hello") refl;
      no_nul = omega arith;
    },
    refl,
    tt,
  ),
)

parse-IsScript_example : IsScript 0 script × (length script % 2 ≡ 0) × (script ≢ [])
parse-IsScript_example = parse-IsScript ample text parse-text

parse-RefusedAt_example : RefusedAt ample 1 (skip_bom lopsided) (wrong_role 3 assistant) 3
parse-RefusedAt_example = parse-RefusedAt ample lopsided parse-lopsided refl

parse-ne-fuel_example : parse ample text ≢ err fuel
parse-ne-fuel_example = parse-ne-fuel ample text

parse-render_example : parse ample (render script) ≡ ok script
parse-render_example =
    parse-render ample script (λ n. (refl, refl)) script-IsWritable (omega arith) (omega arith)
      (λ e. cc e)

abbrev file : File
file = record {
  opens = true;
  seeks_end = true;
  size = some (length text);
  rewinds = true;
  allocates = true;
  bytes = text;
  closes = true;
}

load-turns_iff_example :
    (load ample (codes "p") file ≡ turns script)
    ↔ ((len : ℕ) × Read ample (codes "p") file len script)
load-turns_iff_example = load-turns_iff ample (codes "p") file script
