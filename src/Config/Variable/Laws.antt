-- ===== src/Config/Variable/Laws.antt =====
-- setValue, fromString and the listeners of a configuration variable (components/config.h).
use web_framework.Base.{
  ℕ, ◌+◌, ◌%◌, ◌^◌, ◌≡◌, refl, sym, ap, ◌∙◌, inl, inr, Bool, true, false, List, [], ◌∷◌, ◌++◌,
  append-nil, Text, Option, none, some, ◌==◌, if◌then◌else◌, arith, Bool-cases,
}
use web_framework.Config.Variable.{
  returned, threw, Callback, ConfigVar, notify, assign, erase, find, settle, receive, add_listener,
  del_listener, get_listener, set_value, from_string, to_string,
}

module _ {T S : Type 0} where
  -- Listeners that do not throw.
  abbrev pub quiet : List (ℕ × (T → T → S → S)) → List (ℕ × Callback T S)
  quiet [] = []
  quiet ((id, f) ∷ fs) = (id, λ old new s. returned (f old new s)) ∷ quiet fs

  -- Each of them runs once, in order.
  abbrev pub run_all : List (ℕ × (T → T → S → S)) → T → T → S → S
  run_all [] old new s = s
  run_all ((id, f) ∷ fs) old new s = run_all fs old new (f old new s)

  notify-quiet :
      (fs : List (ℕ × (T → T → S → S))) (rest : List (ℕ × Callback T S)) (old new : T) (s : S)
      → notify (quiet fs ++ rest) old new s ≡ notify rest old new (run_all fs old new s)
  unfolding notify
  notify-quiet [] rest old new s = refl
  notify-quiet ((id, f) ∷ fs) rest old new s = notify-quiet fs rest old new (f old new s)

  notify-throw :
      (id : ℕ) (cb : Callback T S) (rest : List (ℕ × Callback T S)) (old new : T) (s s' : S)
      → cb old new s ≡ threw s'
      → notify ((id, cb) ∷ rest) old new s ≡ threw s'
  unfolding notify
  notify-throw id cb rest old new s s' t = rw t

module _ {T S : Type 0} (eq : T → T → Bool) where
  -- Setting an equal value does nothing. Setting another value runs the listeners in order, each
  -- with the old and the new value; if none throws the value is then the new one, and if one throws
  -- those behind it do not run and the variable stays as it was.
  pub set_value_lem :
      (v : ConfigVar T S) (val : T) (s : S) (fs : List (ℕ × (T → T → S → S))) (id : ℕ)
      (cb : Callback T S) (rest : List (ℕ × Callback T S)) (s' : S)
      → (eq val v.value ≡ true → set_value eq v val s ≡ (v, returned s))
        × (eq val v.value ≡ false
            → v.callbacks ≡ quiet fs
            → set_value eq v val s
              ≡ (record v { value = val }, returned (run_all fs v.value val s)))
        × (eq val v.value ≡ false
            → v.callbacks ≡ quiet fs ++ (id, cb) ∷ rest
            → cb v.value val (run_all fs v.value val s) ≡ threw s'
            → set_value eq v val s ≡ (v, threw s'))
  unfolding set_value notify
  set_value_lem v val s fs id cb rest s' = (
    λ same. rw same,
    λ differs e. rw differs (
        ap (settle v val) (
          ap (λ c. notify c v.value val s) (e ∙ sym (append-nil (quiet fs)))
          ∙ notify-quiet fs [] v.value val s)),
    λ differs e t. rw differs (
        ap (settle v val) (
          ap (λ c. notify c v.value val s) e
          ∙ notify-quiet fs ((id, cb) ∷ rest) v.value val s
          ∙ notify-throw id cb rest v.value val _ s' t)),
  )

  -- fromString answers false whatever happens, also when the value was read and set.
  pub from_string-false :
      (from_str : Text → Option T) (v : ConfigVar T S) (val : Text) (s : S)
      → (from_string eq from_str v val s).2 ≡ false
  unfolding from_string
  from_string-false from_str v val s = ground arith

  -- A text that cannot be read changes nothing, and where the casts are inverse to each other a
  -- variable reads its own text back with no change and no listener called.
  pub from_string_own_text :
      (from_str : Text → Option T) (to_str : T → Option Text) (v : ConfigVar T S) (s : S)
      (bad t : Text)
      → from_str bad ≡ none
      → to_str v.value ≡ some t
      → from_str t ≡ some v.value
      → eq v.value v.value ≡ true
      → (from_string eq from_str v bad s ≡ (v, s, false))
        × (from_string eq from_str v (to_string to_str v) s ≡ (v, s, false))
  unfolding from_string to_string
  from_string_own_text from_str to_str v s bad t unread printed read same =
      (ap (λ o. receive eq v o s) unread, rw printed (ap (λ o. receive eq v o s) read ∙ rw same))

module _ {T S : Type 0} where
  find-assign :
      (id j : ℕ) (cb : Callback T S) (cbs : List (ℕ × Callback T S))
      → find j (assign id cb cbs) ≡ (if id == j then some cb else find j cbs)
  unfolding find assign
  find-assign id j cb [] = refl
  find-assign id j cb ((k, c) ∷ rest) = ground (arith, find-assign id j cb rest)

  find-erase :
      (id j : ℕ) (cbs : List (ℕ × Callback T S))
      → (id == j) ≡ false
      → find j (erase id cbs) ≡ find j cbs
  unfolding find erase
  find-erase id j [] h = refl
  find-erase id j ((k, c) ∷ rest) h = ground (arith, find-erase id j rest h)

  erase-assign :
      (id : ℕ) (cb : Callback T S) (cbs : List (ℕ × Callback T S))
      → find id cbs ≡ none
      → erase id (assign id cb cbs) ≡ cbs
  unfolding find assign erase
  erase-assign id cb [] h = ground arith
  erase-assign id cb ((k, c) ∷ rest) h = elim (Bool-cases (k == id)) [
    | inl e ↦ let found : some c ≡ none = rw e at h in cc
    | inr e ↦
        let absent : find id rest ≡ none = ground arith in
        ground (arith, erase-assign id cb rest absent)
  ]

  -- A listener that was added is found under the number returned; every other number finds what it did;
  -- and if the number was free, taking the listener off again leaves the variable as it was.
  pub add_listener_lem :
      (s_func_id : ℕ) (v : ConfigVar T S) (cb : Callback T S)
      → let (v', id) = add_listener s_func_id v cb in
        (get_listener v' id ≡ some cb)
        × ((j : ℕ) → (id == j) ≡ false → get_listener v' j ≡ get_listener v j)
        × (get_listener v id ≡ none → del_listener v' id ≡ v)
  unfolding add_listener del_listener get_listener
  add_listener_lem s_func_id v cb =
      let id = (s_func_id + 1) % 2 ^ 64 in
      (
        find-assign id id cb v.callbacks ∙ ground arith,
        λ j ne. find-assign id j cb v.callbacks ∙ rw ne,
        λ free. ap (λ c. record v { callbacks = c }) (erase-assign id cb v.callbacks free),
      )
