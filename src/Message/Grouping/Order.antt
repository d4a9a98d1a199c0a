-- ===== src/Message/Grouping/Order.antt =====
-- No key of a message is lost by the grouping, and the order of the keys is kept.
use gribbi.Base.{
  ℕ, suc, ◌<◌, String, ◌≡◌, refl, sym, ap, ◌∙◌, subst, inl, inr, none, some, List, [], ◌∷◌, ◌++◌,
  append-nil, append_assoc, arith, Option-cases, nat_eq, string_eq, option_eq, pair_eq,
}
use gribbi.Base.Int.{int_eq}
use gribbi.Base.Dict.{Dict, insert}
use gribbi.Message.Section.{Section, new}
use gribbi.Message.Grouping.{
  marked_section, Grouping, start, close, add_key, add_keys, get_message_sections,
}

-- The sections of a message begin in increasing order of their numbers, from section 0.
abbrev pub IsIncreasing : ℕ → List String → Type 0
IsIncreasing n [] = Unit
IsIncreasing n (name ∷ names) = elim (marked_section name) as (λ _. Type 0) [
  | none ↦ IsIncreasing n names
  | some m ↦ (n < m) × IsIncreasing m names
]

module _ {F : Type 0} where
  -- All keys, section by section.
  abbrev pub all_keys : Dict ℕ (Section F) → List String
  all_keys [] = []
  all_keys ((n, s) ∷ d) = s.keys ++ all_keys d

  -- Every section is kept under its own number, which is below n.
  abbrev pub AllBelow : ℕ → Dict ℕ (Section F) → Type 0
  AllBelow n [] = Unit
  AllBelow n ((m, s) ∷ d) = (m < n) × (s.number ≡ m) × AllBelow n d

  insert_fresh :
      (n : ℕ) (s : Section F) (d : Dict ℕ (Section F))
      → AllBelow n d
      → insert n s d ≡ d ++ (n, s) ∷ []
  unfolding insert
  insert_fresh n s [] below = refl
  insert_fresh n s ((m, t) ∷ d) below = ground (arith, insert_fresh n s d below.2)

  all_keys-append : (d e : Dict ℕ (Section F)) → all_keys (d ++ e) ≡ all_keys d ++ all_keys e
  all_keys-append [] e = refl
  all_keys-append ((n, s) ∷ d) e = rw (all_keys-append d e) (sym (append_assoc s.keys _ _))

  AllBelow-append :
      (n m : ℕ) (s : Section F) (d : Dict ℕ (Section F))
      → AllBelow n d
      → n < m
      → s.number ≡ n
      → AllBelow m (d ++ (n, s) ∷ [])
  AllBelow-append n m s [] below lt own = (lt, own, tt)
  AllBelow-append n m s ((k, t) ∷ d) below lt own =
      (omega arith, below.1, AllBelow-append n m s d below.2 lt own)

  -- What holds before each turn of the loop.
  record IsOpen (g : Grouping F) : Type 0 where
    same : g.current ≡ g.new_section
    below : AllBelow g.current g.sections

  close_lem :
      (g : Grouping F)
      → IsOpen g
      → close g ≡ g.sections ++ (g.current, new g.current g.section_keys) ∷ []
  close_lem g o = insert_fresh g.current (new g.current g.section_keys) g.sections o.below

  abbrev extend : Grouping F → String → Grouping F
  extend g name = record g { section_keys = g.section_keys ++ (name ∷ []) }

  abbrev next : Grouping F → ℕ → String → Grouping F
  next g m name = record {
    sections = close g;
    current = m;
    new_section = m;
    section_keys = name ∷ [];
  }

  add_key-same :
      (g : Grouping F) (name : String)
      → IsOpen g
      → marked_section name ≡ none
      → add_key g name ≡ extend g name
  unfolding add_key
  add_key-same g name o e = ground (arith, o)

  add_key-next :
      (g : Grouping F) (name : String) (m : ℕ)
      → g.current < m
      → marked_section name ≡ some m
      → add_key g name ≡ next g m name
  unfolding add_key
  add_key-next g name m lt e = ground arith

  -- Nothing is lost, and every section stands under its own number.
  abbrev Keeps : List String → Dict ℕ (Section F) → Type 0
  Keeps names d = (all_keys d ≡ names) × ((n : ℕ) × AllBelow n d)

  Keeps-close :
      (g : Grouping F) → IsOpen g → Keeps (all_keys g.sections ++ g.section_keys) (close g)
  unfolding new
  Keeps-close g o = rw (close_lem g o) (
    all_keys-append g.sections _ ∙ ap (λ k. all_keys g.sections ++ k) (append-nil _),
    (
      suc g.current,
      AllBelow-append g.current (suc g.current) _ g.sections o.below (omega arith) refl,
    ),
  )

  add_keys-Keeps :
      (g : Grouping F) (names : List String)
      → IsOpen g
      → IsIncreasing g.current names
      → Keeps (all_keys g.sections ++ g.section_keys ++ names) (close (add_keys g names))
  unfolding add_keys new
  add_keys-Keeps g [] o inc = rw append-nil (Keeps-close g o)
  add_keys-Keeps g (name ∷ names) o inc = elim (Option-cases (marked_section name)) [
    | inl plain ↦ step (extend g name) (add_key-same g name o plain) (simp append_assoc) (
        add_keys-Keeps (extend g name) names (record { same = o.same; below = o.below })
          (rw (plain, IsIncreasing) at inc))
    | inr (m, marked) ↦
        let (kept, (n, below)) = Keeps-close g o in
        let more : (g.current < m) × IsIncreasing m names = rw (marked, IsIncreasing) at inc in
        step (next g m name) (add_key-next g name m more.0 marked)
          (rw kept (append_assoc (all_keys g.sections ++ g.section_keys) (name ∷ []) names))
          (add_keys-Keeps (next g m name) names
            (record {
              same = refl;
              below = rw (close_lem g o) (
                  AllBelow-append g.current m (new g.current g.section_keys) g.sections o.below
                    more.0 refl);
            })
            more.1)
  ]
    where
      step :
          (h : Grouping F)
          → add_key g name ≡ h
          → (all_keys h.sections ++ h.section_keys ++ names)
            ≡ (all_keys g.sections ++ g.section_keys ++ name ∷ names)
          → Keeps (all_keys h.sections ++ h.section_keys ++ names) (close (add_keys h names))
          → Keeps
              (all_keys g.sections ++ g.section_keys ++ name ∷ names)
              (close (add_keys (add_key g name) names))
      step h e p keeps =
          subst
            (λ k.
              Keeps (all_keys g.sections ++ g.section_keys ++ name ∷ names)
                (close (add_keys k names)))
            (sym e) (subst (λ k. Keeps k (close (add_keys h names))) p keeps)

-- Where the sections of a message begin in increasing order, the grouping keeps every key, in
-- the order of the message, and every section stands under its own number.
pub get_message_sections-all_keys :
    (F : Type 0) (names : List String)
    → IsIncreasing 0 names
    → (all_keys (get_message_sections {F = F} names) ≡ names)
      × ((n : ℕ) × AllBelow n (get_message_sections {F = F} names))
unfolding get_message_sections
get_message_sections-all_keys F names inc =
    add_keys-Keeps start names (record { same = refl; below = tt }) inc
