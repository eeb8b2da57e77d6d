-- ===== src/Config/Member.antt =====
-- ListAllMember (components/config.cpp): the dotted keys of a YAML document. A document is the tree
-- that a YAML::Node shows through IsScalar, Scalar, IsMap and iteration; keys are i.first.Scalar().
use web_framework.Base.{
  ℕ, ◌≡◌, refl, sym, subst, ◌↔◌, ◌⊎◌, inl, inr, Bool, true, false, ◌&&◌, ◌||◌, List, [], ◌∷◌, ◌++◌,
  all, map, Text, ◌==◌, leb, if◌then◌else◌, is_empty, to_lower, arith,
}

mutual
  pub data Node : Type 0 where
    null : Node
    scalar : Text → Node
    sequence : Items → Node
    mapping : Entries → Node

  pub data Items : Type 0 where
    nil : Items
    item : Node → Items → Items

  pub data Entries : Type 0 where
    end : Entries
    entry : Text → Node → Entries → Entries

-- The characters of "abcdefghijklmnopqrstuvwxyz._0123456789".
unfoldable pub is_key_char : ℕ → Bool
is_key_char c =
    (leb b'a' c && leb c b'z') || (c == b'.' || (c == b'_' || (leb b'0' c && leb c b'9')))

-- `find_first_not_of(...) == npos`
abbrev pub is_key : Text → Bool
is_key = all is_key_char

unfoldable pub join : Text → Text → Text
join prefix key = if is_empty prefix then key else prefix ++ b'.' ∷ key

-- ListAllMember and its loop over the entries of a map; the message on the log is left out.
unfoldable mutual
  unfolding join

  pub list_all_member : Text → Node → List (Text × Node)
  list_all_member prefix null = if is_key prefix then (prefix, null) ∷ [] else []
  list_all_member prefix (scalar t) = if is_key prefix then (prefix, scalar t) ∷ [] else []
  list_all_member prefix (sequence xs) = if is_key prefix then (prefix, sequence xs) ∷ [] else []
  list_all_member prefix (mapping es) =
      if is_key prefix then (prefix, mapping es) ∷ list_entries prefix es else []

  pub list_entries : Text → Entries → List (Text × Node)
  list_entries prefix end = []
  list_entries prefix (entry key node es) =
      list_all_member (join prefix key) node ++ list_entries prefix es

pub data In {ℓ} {A : Type ℓ} (a : A) : List A → Type ℓ where
  first : {xs : List A} → In a (a ∷ xs)
  later : {x : A} {xs : List A} → In a xs → In a (x ∷ xs)

-- The map has an entry of this key and node.
pub data Has (key : Text) (node : Node) : Entries → Type 0 where
  here : {es : Entries} → Has key node (entry key node es)
  there : {k : Text} {n : Node} {es : Entries} → Has key node es → Has key node (entry k n es)

-- `sub` stands in the node at dotted key `key`, and every prefix on the way to it, itself included,
-- is made of key characters.
pub data Reaches (key : Text) (sub : Node) : Text → Node → Type 0 where
  stop : is_key key ≡ true → Reaches key sub key sub
  down :
      {prefix k : Text} {node : Node} {es : Entries}
      → is_key prefix ≡ true
      → Has k node es
      → Reaches key sub (join prefix k) node
      → Reaches key sub prefix (mapping es)

In-append_left {ℓ} : {A : Type ℓ} {a : A} (xs ys : List A) → In a xs → In a (xs ++ ys)
In-append_left [] ys i = elim i [ ]
In-append_left (x ∷ xs) ys first = first
In-append_left (x ∷ xs) ys (later i) = later (In-append_left xs ys i)

In-append_right {ℓ} : {A : Type ℓ} {a : A} (xs ys : List A) → In a ys → In a (xs ++ ys)
In-append_right [] ys i = i
In-append_right (x ∷ xs) ys i = later (In-append_right xs ys i)

In-append_cases {ℓ} : {A : Type ℓ} {a : A} (xs ys : List A) → In a (xs ++ ys) → In a xs ⊎ In a ys
In-append_cases [] ys i = inr i
In-append_cases (x ∷ xs) ys first = inl first
In-append_cases (x ∷ xs) ys (later i) = elim (In-append_cases xs ys i) [
  | inl l ↦ inl (later l)
  | inr r ↦ inr r
]

guarded {ℓ} :
    {A : Type ℓ} (b : Bool) (a x : A) (xs : List A)
    → In a (if b then x ∷ xs else [])
    → (b ≡ true) × ((a ≡ x) ⊎ In a xs)
guarded true a x xs first = (refl, inl refl)
guarded true a x xs (later i) = (refl, inr i)
guarded false a x xs i = elim i [ ]

-- The pair of a key and a node below another node.
abbrev Below : Text × Node → Text → Node → Type 0
Below a = Reaches a.0 a.1

leaf :
    (a : Text × Node) (prefix : Text) (node : Node)
    → In a (if is_key prefix then (prefix, node) ∷ [] else [])
    → Below a prefix node
leaf a prefix node i =
    let (valid, which) = guarded (is_key prefix) a (prefix, node) [] i in
    elim which [
      | inl e ↦ subst (λ q. Below q prefix node) (sym e) (stop valid)
      | inr none_left ↦ elim none_left [ ]
    ]

mutual
  unfolding list_all_member

  sound :
      (a : Text × Node) (prefix : Text) (node : Node)
      → In a (list_all_member prefix node)
      → Below a prefix node
  sound a prefix null i = leaf a prefix null i
  sound a prefix (scalar t) i = leaf a prefix (scalar t) i
  sound a prefix (sequence xs) i = leaf a prefix (sequence xs) i
  sound a prefix (mapping es) i =
      let (valid, which) =
        guarded (is_key prefix) a (prefix, mapping es) (list_entries prefix es) i in
      elim which [
        | inl e ↦ subst (λ q. Below q prefix (mapping es)) (sym e) (stop valid)
        | inr j ↦ let (k, node, has, r) = sound_entries a prefix es j in down valid has r
      ]

  sound_entries :
      (a : Text × Node) (prefix : Text) (es : Entries)
      → In a (list_entries prefix es)
      → (k : Text) × (node : Node) × Has k node es × Below a (join prefix k) node
  sound_entries a prefix end i = elim i [ ]
  sound_entries a prefix (entry k node es) i =
      elim (In-append_cases (list_all_member (join prefix k) node) (list_entries prefix es) i) [
        | inl l ↦ (k, node, here, sound a (join prefix k) node l)
        | inr r ↦
            let (k', node', has, below) = sound_entries a prefix es r in
            (k', node', there has, below)
      ]

own_member :
    (prefix : Text) (node : Node)
    → is_key prefix ≡ true
    → In (prefix, node) (list_all_member prefix node)
unfolding list_all_member
own_member prefix null h = rw h first
own_member prefix (scalar t) h = rw h first
own_member prefix (sequence xs) h = rw h first
own_member prefix (mapping es) h = rw h first

In-list_entries :
    {k : Text} {node : Node} {es : Entries} (a : Text × Node) (prefix : Text)
    → Has k node es
    → In a (list_all_member (join prefix k) node)
    → In a (list_entries prefix es)
unfolding list_all_member
In-list_entries a prefix here i = In-append_left _ _ i
In-list_entries a prefix (there has) i = In-append_right _ _ (In-list_entries a prefix has i)

complete :
    {key : Text} {sub : Node} {prefix : Text} {node : Node}
    → Reaches key sub prefix node
    → In (key, sub) (list_all_member prefix node)
unfolding list_all_member
complete (stop h) = own_member _ _ h
complete (down {prefix} h has r) = rw h (later (In-list_entries _ prefix has (complete r)))

-- ListAllMember lists a key and a node exactly if the node stands at that dotted key and every
-- prefix of the key on the way is made of key characters: one bad key hides all below it.
pub list_all_member_iff :
    (key : Text) (sub : Node) (prefix : Text) (node : Node)
    → In (key, sub) (list_all_member prefix node) ↔ Reaches key sub prefix node
list_all_member_iff key sub prefix node = (sound (key, sub) prefix node, complete)

Reaches-is_key :
    {key : Text} {sub : Node} {prefix : Text} {node : Node}
    → Reaches key sub prefix node
    → is_key key ≡ true
Reaches-is_key (stop h) = h
Reaches-is_key (down h has r) = Reaches-is_key r

to_lower-is_key_char : (c : ℕ) → is_key_char c ≡ true → to_lower c ≡ c
unfolding is_key_char to_lower
to_lower-is_key_char c h = ground arith

pub to_lower-is_key : (key : Text) → is_key key ≡ true → map to_lower key ≡ key
to_lower-is_key [] h = refl
to_lower-is_key (c ∷ key) h =
    cc (to_lower-is_key_char c (ground arith), to_lower-is_key key (ground arith))

-- No listed key has a capital letter: setting the keys in lower case, as the loader does after
-- this, changes none of them.
pub to_lower-list_all_member :
    (key : Text) (sub : Node) (prefix : Text) (node : Node)
    → In (key, sub) (list_all_member prefix node)
    → map to_lower key ≡ key
to_lower-list_all_member key sub prefix node i =
    to_lower-is_key key (Reaches-is_key (sound (key, sub) prefix node i))
