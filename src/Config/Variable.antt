-- ===== src/Config/Variable.antt =====
-- ConfigVarBase and ConfigVar<T> (components/config.h). T comes with its operator== and with the
-- two casts FromStr and ToStr, which may throw; a listener acts on the rest of the program's state
-- and may throw as well. Where the source takes a lock, an operation here is one critical section.
pub mod Laws
use web_framework.Base.{
  ℕ, suc, ◌+◌, ◌%◌, ◌^◌, ◌≡◌, Bool, true, false, List, [], ◌∷◌, ◌++◌, map, Text, Option, none, some,
  ◌==◌, if◌then◌else◌, to_lower,
}

-- How a call that may throw ends, with the state that it leaves.
pub data Outcome (S : Type 0) : Type 0 where
  returned : S → Outcome S
  threw : S → Outcome S

abbrev pub state_of : {S : Type 0} → Outcome S → S
state_of (returned s) = s
state_of (threw s) = s

-- std::function<void (const T& old_value, const T& new_value)>
abbrev pub Callback : Type 0 → Type 0 → Type 0
Callback T S = T → T → S → Outcome S

-- m_callbacks is listed in the order in which its iteration meets the listeners.
pub record ConfigVar (T S : Type 0) : Type 0 where
  pub name : Text
  pub description : Text
  pub value : T
  pub callbacks : List (ℕ × Callback T S)

-- The constructors of ConfigVarBase and ConfigVar.
unfoldable pub make_var : {T S : Type 0} → Text → T → Text → ConfigVar T S
make_var name default_value description = record {
  name = map to_lower name;
  description = description;
  value = default_value;
  callbacks = [];
}

module _ {T S : Type 0} where
  -- The loop over m_callbacks; an exception leaves it.
  unfoldable pub notify : List (ℕ × Callback T S) → T → T → S → Outcome S
  notify [] old new s = returned s
  notify ((id, cb) ∷ rest) old new s = elim (cb old new s) [
    | returned s' ↦ notify rest old new s'
    | threw s' ↦ threw s'
  ]

  -- `m_callbacks[id] = cb`
  unfoldable pub assign : ℕ → Callback T S → List (ℕ × Callback T S) → List (ℕ × Callback T S)
  assign id cb [] = (id, cb) ∷ []
  assign id cb ((j, c) ∷ rest) = if j == id then (id, cb) ∷ rest else (j, c) ∷ assign id cb rest

  -- `m_callbacks.erase(key)`
  unfoldable pub erase : ℕ → List (ℕ × Callback T S) → List (ℕ × Callback T S)
  erase key [] = []
  erase key ((j, c) ∷ rest) = if j == key then rest else (j, c) ∷ erase key rest

  unfoldable pub find : ℕ → List (ℕ × Callback T S) → Option (Callback T S)
  find key [] = none
  find key ((j, c) ∷ rest) = if j == key then some c else find key rest

  -- addListener, with s_func_id of this T; a uint64_t wraps around.
  unfoldable pub add_listener : ℕ → ConfigVar T S → Callback T S → ConfigVar T S × ℕ
  unfolding assign
  add_listener s_func_id v cb =
      let id = (s_func_id + 1) % 2 ^ 64 in (record v { callbacks = assign id cb v.callbacks }, id)

  unfoldable pub del_listener : ConfigVar T S → ℕ → ConfigVar T S
  unfolding erase
  del_listener v key = record v { callbacks = erase key v.callbacks }

  unfoldable pub get_listener : ConfigVar T S → ℕ → Option (Callback T S)
  unfolding find
  get_listener v key = find key v.callbacks

  unfoldable pub clear_listener : ConfigVar T S → ConfigVar T S
  clear_listener v = record v { callbacks = [] }

-- The rest of setValue, by how the listeners ended.
unfoldable pub settle : {T S : Type 0} → ConfigVar T S → T → Outcome S → ConfigVar T S × Outcome S
settle v val (returned s) = (record v { value = val }, returned s)
settle v val (threw s) = (v, threw s)

module _ {T S : Type 0} (eq : T → T → Bool) where
  -- setValue; the listeners run before the value is written.
  unfoldable pub set_value : ConfigVar T S → T → S → ConfigVar T S × Outcome S
  unfolding settle
  set_value v val s =
      if eq val v.value then (v, returned s) else settle v val (notify v.callbacks v.value val s)

  -- The body of fromString on the result of the cast.
  unfoldable pub receive : ConfigVar T S → Option T → S → ConfigVar T S × S × Bool
  unfolding set_value
  receive v none s = (v, s, false)
  receive v (some t) s = let (v', o) = set_value v t s in (v', state_of o, false)

  -- fromString: a std::exception is caught and logged, and the result is false on every path. What
  -- a cast or a listener throws is taken to be one; anything else would leave fromString.
  unfoldable pub from_string :
      (Text → Option T) → ConfigVar T S → Text → S → ConfigVar T S × S × Bool
  unfolding receive
  from_string from_str v val s = receive v (from_str val) s

-- toString; a failed cast gives the empty text.
unfoldable pub to_string : {T S : Type 0} → (T → Option Text) → ConfigVar T S → Text
to_string to_str v = text_or_empty (to_str v.value)
  where
    text_or_empty : Option Text → Text
    text_or_empty none = []
    text_or_empty (some t) = t
