-- ===== src/Rte/Strtok.antt =====
-- `strtok` of the C library with "," as the delimiters, which `rte_hosts` takes a list of hosts apart
-- with: a token and what is left of the text, or `none` for `NULL`.
use Prim.Native.Char.{code}
use Prim.Native.String.{String}
use open_shmem_csci.Base.{
  ◌≡◌, ◌≢◌, refl, Option, none, some, List, [], ◌∷◌, ◌==◌, if◌then◌else◌, ne→==,
}

unfoldable pub skip : String → String
skip String.[] = String.[]
skip (String.◌∷◌ c s) = if code c == b',' then skip s else String.◌∷◌ c s

-- the text up to the first delimiter, and what follows the delimiter
unfoldable pub split : String → String × String
split String.[] = (String.[], String.[])
split (String.◌∷◌ c s) =
    let rest = split s in if code c == b',' then (String.[], s) else (String.◌∷◌ c rest.0, rest.1)

unfoldable pub first_token : String → Option (String × String)
unfolding split
first_token String.[] = none
first_token (String.◌∷◌ c s) = some (split (String.◌∷◌ c s))

unfoldable pub strtok : String → Option (String × String)
unfolding skip first_token
strtok s = first_token (skip s)

-- `host`, then a comma, then `rest`
abbrev pub before : (host rest : String) → String
before String.[] rest = String.◌∷◌ "," rest
before (String.◌∷◌ c host) rest = String.◌∷◌ c (before host rest)

-- the hosts with a comma between two of them
abbrev pub joined : List String → String
joined [] = String.[]
joined (host ∷ []) = host
joined (host ∷ next ∷ hosts) = before host (joined (next ∷ hosts))

abbrev pub NoComma : String → Type 0
NoComma String.[] = Unit
NoComma (String.◌∷◌ c s) = (code c ≢ b',') × NoComma s

split-before : (h s : String) → NoComma h → split (before h s) ≡ (h, s)
unfolding split
split-before String.[] s clean = refl
split-before (String.◌∷◌ c h) s (ne, clean) =
    rw (ne→== (code c) b',' ne, split-before h s clean) refl

split-all : (h : String) → NoComma h → split h ≡ (h, String.[])
unfolding split
split-all String.[] clean = refl
split-all (String.◌∷◌ c h) (ne, clean) = rw (ne→== (code c) b',' ne, split-all h clean) refl

pub strtok-before : (h s : String) → NoComma h → h ≢ String.[] → strtok (before h s) ≡ some (h, s)
unfolding strtok
strtok-before String.[] s clean some_char = absurd (some_char refl)
strtok-before (String.◌∷◌ c h) s (ne, clean) some_char =
    rw (ne→== (code c) b',' ne) (rw (ne→== (code c) b',' ne, split-before h s clean) refl)

pub strtok-all : (h : String) → NoComma h → h ≢ String.[] → strtok h ≡ some (h, String.[])
unfolding strtok
strtok-all String.[] clean some_char = absurd (some_char refl)
strtok-all (String.◌∷◌ c h) (ne, clean) some_char =
    rw (ne→== (code c) b',' ne) (rw (ne→== (code c) b',' ne, split-all h clean) refl)

pub strtok-nil : strtok String.[] ≡ none
unfolding strtok
strtok-nil = refl
