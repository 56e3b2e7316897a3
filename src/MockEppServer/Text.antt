-- ===== src/MockEppServer/Text.antt =====
-- What cmd/mock-epp-server/main.go finds in the text of a command: the regular expressions of its
-- elements, which take any namespace prefix, and the scan for the names of domains.
use epp_test.Base.{
  ℕ, zero, suc, Bool, true, false, ◌&&◌, ◌||◌, not, List, [], ◌∷◌, ◌++◌, Option, none, some,
  if◌then◌else◌, leb, ◌==◌, length,
}
use epp_test.Base.Text.{Bytes, codes, text_eq, trim_space}

-- `[A-Za-z_]`, `[\w.-]` and `[\s/>]`.
unfoldable pub is_name_start : ℕ → Bool
is_name_start c = (leb b'a' c && leb c b'z') || (leb b'A' c && leb c b'Z') || (c == b'_')

unfoldable pub is_name_char : ℕ → Bool
unfolding is_name_start
is_name_char c = is_name_start c || (leb b'0' c && leb c b'9') || (c == b'.') || (c == b'-')

unfoldable pub ends_name : ℕ → Bool
ends_name c =
    (c == 9) || (c == 10) || (c == 12) || (c == 13) || (c == 32) || (c == b'/') || (c == b'>')

-- What follows a text at the front.
unfoldable pub strip_prefix : Bytes → Bytes → Option Bytes
strip_prefix [] s = some s
strip_prefix (p ∷ ps) [] = none
strip_prefix (p ∷ ps) (c ∷ cs) = if c == p then strip_prefix ps cs else none

-- What follows `[\w.-]*:`; the colon is no character of a name.
unfoldable pub skip_name : Bytes → Option Bytes
unfolding is_name_char
skip_name [] = none
skip_name (c ∷ cs) = if c == b':' then some cs else if is_name_char c then skip_name cs else none

-- What follows `[A-Za-z_][\w.-]*:`.
unfoldable pub skip_namespace : Bytes → Option Bytes
unfolding skip_name
skip_namespace [] = none
skip_namespace (c ∷ cs) = if is_name_start c then skip_name cs else none

-- A test of what follows `<` or the prefix behind it.
unfoldable pub at_element : {A : Type 0} → (Bytes → Option A) → Bytes → Option A
unfolding skip_namespace
at_element found cs = elim (found cs) [
  | some a ↦ some a
  | none ↦ elim (skip_namespace cs) [ none ↦ none | some local ↦ found local ]
]

-- The leftmost `<` behind which the test finds something.
unfoldable pub find_element : {A : Type 0} → (Bytes → Option A) → Bytes → Option A
unfolding at_element
find_element found [] = none
find_element found (c ∷ cs) =
    let later = find_element found cs in
    if c == b'<' then elim (at_element found cs) [ some a ↦ some a | none ↦ later ] else later

-- The start tag of this name.
unfoldable pub opens : Bytes → Bytes → Option (Unit {0})
unfolding strip_prefix ends_name
opens name cs = elim (strip_prefix name cs) [
  | none ↦ none
  | some [] ↦ none
  | some (d ∷ ds) ↦ if ends_name d then some tt else none
]

-- `helloRe`, `loginRe` and `logoutRe`.
unfoldable pub has_element : Bytes → Bytes → Bool
unfolding find_element opens
has_element name xml = elim (find_element (opens name) xml) [ none ↦ false | some _ ↦ true ]

-- `([^<]*)</`
unfoldable pub up_to_end_tag : Bytes → Option Bytes
up_to_end_tag [] = none
up_to_end_tag (c ∷ cs) =
    let more = up_to_end_tag cs in
    if c == b'<'
    then elim (strip_prefix (codes "/") cs) [ none ↦ none | some _ ↦ some [] ]
    else elim more [ none ↦ none | some text ↦ some (c ∷ text) ]

-- `clTRID>([^<]*)</`
unfoldable pub cl_trid_text : Bytes → Option Bytes
unfolding strip_prefix up_to_end_tag
cl_trid_text cs = elim (strip_prefix (codes "clTRID>") cs) [
  | none ↦ none
  | some rest ↦ up_to_end_tag rest
]

-- `echoCltrid`, with the submatch of `clTRIDRe`.
unfoldable pub echo_cl_trid : Bytes → Bytes
unfolding find_element cl_trid_text
echo_cl_trid xml = elim (find_element cl_trid_text xml) [ none ↦ [] | some id ↦ id ]

-- `strings.Index`: what is before the first occurrence, and what is behind it.
unfoldable pub split_at : Bytes → Bytes → Option (Bytes × Bytes)
unfolding strip_prefix
split_at sub [] = elim (strip_prefix sub []) [ none ↦ none | some rest ↦ some ([], rest) ]
split_at sub (c ∷ cs) =
    let later = split_at sub cs in
    elim (strip_prefix sub (c ∷ cs)) [
      | some rest ↦ some ([], rest)
      | none ↦ elim later [ none ↦ none | some (before, rest) ↦ some (c ∷ before, rest) ]
    ]

-- What is behind the last `>`, as `strings.LastIndex` finds it.
unfoldable pub after_last_gt : Bytes → Option Bytes
after_last_gt [] = none
after_last_gt (c ∷ cs) = elim (after_last_gt cs) [
  | some rest ↦ some rest
  | none ↦ if c == b'>' then some cs else none
]

-- Whether the list holds the text.
unfoldable pub is_seen : Bytes → List Bytes → Bool
is_seen x [] = false
is_seen x (y ∷ ys) = text_eq x y || is_seen x ys

-- One more name, if it is new and not empty.
unfoldable pub add_name : Bytes → List Bytes → List Bytes
unfolding is_seen
add_name name names =
    if not (text_eq name []) && not (is_seen name names) then names ++ (name ∷ []) else names

-- What a segment in front of a closing tag adds.
unfoldable pub add_segment : Option Bytes → List Bytes → List Bytes
unfolding add_name
add_segment none names = names
add_segment (some text) names = add_name (trim_space text) names

-- The loop of `extractDomainNames`; a closing tag is not empty.
unfoldable pub names_loop : ℕ → Bytes → List Bytes → List Bytes
unfolding split_at after_last_gt add_segment
names_loop zero rest names = names
names_loop (suc fuel) rest names = elim (split_at (codes "</domain:name>") rest) [
  | none ↦ names
  | some (segment, rest') ↦ names_loop fuel rest' (add_segment (after_last_gt segment) names)
]

-- `extractDomainNames`
unfoldable pub extract_domain_names : Bytes → List Bytes
unfolding names_loop
extract_domain_names xml = names_loop (suc (length xml)) xml []
