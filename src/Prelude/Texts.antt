-- ===== src/Prelude/Texts.antt =====
-- Texts as lists of bytes: the functions of Go's package strings that the program uses on them.
use Prim.Native.Nat.{ℕ}
use Prim.Native.Char.{code}
use Prim.Native.String.{String}
use mathlib.Core.Bool.{Bool, true, false, ◌&&◌, ◌||◌}
use mathlib.Core.List.{List, [], ◌∷◌, ◌++◌}
use native.Mathlib.Decide.{ℕ_discrete}
use hyrule_network_proxy.Prelude.Tests.{◌==◌, if◌then◌else◌}

abbrev pub Bytes : Type 0
Bytes = List ℕ

-- The bytes of an ASCII text.
abbrev pub bytes : String → Bytes
bytes String.[] = []
bytes (String.◌∷◌ c s) = code c ∷ bytes s

unfoldable pub bytes_discrete : Discrete Bytes
bytes_discrete = hlevel ℕ_discrete

-- strings.HasPrefix(s, p)
unfoldable pub has_prefix : Bytes → Bytes → Bool
has_prefix s [] = true
has_prefix [] (p ∷ ps) = false
has_prefix (c ∷ cs) (p ∷ ps) = c == p && has_prefix cs ps

-- strings.TrimPrefix(s, p), where p is a prefix of s.
unfoldable pub drop_prefix : Bytes → Bytes → Bytes
drop_prefix s [] = s
drop_prefix [] (p ∷ ps) = []
drop_prefix (c ∷ cs) (p ∷ ps) = drop_prefix cs ps

abbrev reverse_onto : Bytes → Bytes → Bytes
reverse_onto [] acc = acc
reverse_onto (c ∷ cs) acc = reverse_onto cs (c ∷ acc)

abbrev reverse : Bytes → Bytes
reverse s = reverse_onto s []

-- strings.HasSuffix(s, t)
unfoldable pub has_suffix : Bytes → Bytes → Bool
unfolding has_prefix
has_suffix s t = has_prefix (reverse s) (reverse t)

-- strings.TrimSuffix(s, t)
unfoldable pub trim_suffix : Bytes → Bytes → Bytes
unfolding has_suffix drop_prefix
trim_suffix s t = if has_suffix s t then reverse (drop_prefix (reverse s) (reverse t)) else s

abbrev is_in : Bytes → ℕ → Bool
is_in [] c = false
is_in (d ∷ ds) c = d == c || is_in ds c

abbrev trim_left : Bytes → Bytes → Bytes
trim_left [] cutset = []
trim_left (c ∷ cs) cutset =
    let rest = trim_left cs cutset in if is_in cutset c then rest else c ∷ cs

-- strings.Trim(s, cutset), for a cutset of ASCII characters.
unfoldable pub trim : Bytes → Bytes → Bytes
trim s cutset = reverse (trim_left (reverse (trim_left s cutset)) cutset)

-- strings.Join(parts, sep)
unfoldable pub join : List Bytes → Bytes → Bytes
join [] sep = []
join (p ∷ []) sep = p
join (p ∷ q ∷ ps) sep = p ++ sep ++ join (q ∷ ps) sep
