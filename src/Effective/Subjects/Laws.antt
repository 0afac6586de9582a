-- ===== src/Effective/Subjects/Laws.antt =====
-- The bindings that control-plane/app/effective_access.py gathers for a subject.
use kaaval.Base.{
  ◌≡◌, refl, sym, ◌∙◌, ap, Bool, true, false, some, List, [], ◌∷◌, ◌++◌, if◌then◌else◌, Bool-cases,
  inl, inr, flat_map, ◌==◌, Eq, string_eq, option_eq, pair_eq,
}
use kaaval.Base.Dict.{Dict, lookup, append_to, list_at, list_at-append_to}
use mathlib.Core.Path.{subst}
use mathlib.Core.List.{append-nil, append_assoc}
use kaaval.Base.Member.{
  Member, Member-list_at, here, there, Member-append_right, Member-append_cases, Member-flat_map,
  Member-of_flat_map,
}
use kaaval.Rbac.Graph.{Subject, Binding}
use kaaval.Effective.Subjects.{
  SubjectKey, subject_key, add_subjects, subject_index, find_subject, representative,
}

-- The binding, once for each time that the subject stands in it.
abbrev pub occurrences : SubjectKey → Binding → List Subject → List Binding
occurrences k b [] = []
occurrences k b (s ∷ subjects) =
    let rest = occurrences k b subjects in if k == subject_key s then b ∷ rest else rest

abbrev pub bindings_of : SubjectKey → List Binding → List Binding
bindings_of k bindings = flat_map (λ b. occurrences k b b.subjects) bindings

occurrences-cons :
    (k : SubjectKey) (b : Binding) (s : Subject) (subjects : List Subject)
    → occurrences k b (s ∷ subjects)
      ≡ (if k == subject_key s then b ∷ [] else []) ++ occurrences k b subjects
occurrences-cons k b s subjects = elim (Bool-cases (k == subject_key s)) [
  | inl h ↦ rw h
  | inr h ↦ rw h
]

list_at-add_subjects :
    (k : SubjectKey) (b : Binding) (subjects : List Subject) (d : Dict SubjectKey (List Binding))
    → list_at k (add_subjects b subjects d) ≡ list_at k d ++ occurrences k b subjects
unfolding add_subjects
list_at-add_subjects k b [] d = sym (append-nil _)
list_at-add_subjects k b (s ∷ subjects) d =
    list_at-add_subjects k b subjects (append_to (subject_key s) b d)
    ∙ rw (list_at-append_to, occurrences-cons)
        (append_assoc (list_at k d) (if k == subject_key s then b ∷ [] else [])
          (occurrences k b subjects))

-- The index holds, for each subject, the bindings that name it, in their order, each as often as it
-- names the subject.
pub lookup-subject_index :
    (k : SubjectKey) (bindings : List Binding) (d : Dict SubjectKey (List Binding))
    → list_at k (subject_index bindings d) ≡ list_at k d ++ bindings_of k bindings
unfolding subject_index flat_map
lookup-subject_index k [] d = sym (append-nil _)
lookup-subject_index k (b ∷ bindings) d =
    lookup-subject_index k bindings (add_subjects b b.subjects d)
    ∙ rw list_at-add_subjects
        (append_assoc (list_at k d) (occurrences k b b.subjects) (bindings_of k bindings))

list_at-subject_index :
    (k : SubjectKey) (bindings : List Binding)
    → list_at k (subject_index bindings []) ≡ bindings_of k bindings
unfolding lookup
list_at-subject_index k bindings = lookup-subject_index k bindings []

abbrev key_eq : Eq SubjectKey
key_eq = pair_eq

-- A subject with the key stands in the binding.
abbrev pub Names : SubjectKey → Binding → Type 0
Names k b = (s : Subject) × Member s b.subjects × (k ≡ subject_key s)

Member-occurrences :
    (k : SubjectKey) (b : Binding) (s : Subject) (subjects : List Subject)
    → Member s subjects
    → k ≡ subject_key s
    → Member b (occurrences k b subjects)
Member-occurrences k b s [] m e = elim m [ ]
Member-occurrences k b s (x ∷ subjects) (here q) e =
    rw ((key_eq.beq_iff k (subject_key x)).1 (e ∙ ap subject_key q)) (here refl)
Member-occurrences k b s (x ∷ subjects) (there m) e =
    rw occurrences-cons (Member-append_right b _ _ (Member-occurrences k b s subjects m e))

pub Member-bindings_of :
    (k : SubjectKey) (b : Binding) (bindings : List Binding)
    → Member b bindings
    → Names k b
    → Member b (bindings_of k bindings)
Member-bindings_of k b bindings m (s, n, e) =
    Member-flat_map (λ b. occurrences k b b.subjects) b b bindings m
      (Member-occurrences k b s b.subjects n e)

-- A key that some binding names has an entry in the index: the bindings that name it.
pub Member-subject_index :
    (k : SubjectKey) (b : Binding) (bindings : List Binding)
    → Member b (bindings_of k bindings)
    → Member (k, bindings_of k bindings) (subject_index bindings [])
Member-subject_index k b bindings m =
    Member-list_at k (subject_index bindings []) b (bindings_of k bindings)
      (list_at-subject_index k bindings) m

find_subject_found :
    (k : SubjectKey) (s : Subject) (subjects : List Subject)
    → Member s subjects
    → k ≡ subject_key s
    → (x : Subject) × (find_subject k subjects ≡ some x) × (subject_key x ≡ k)
unfolding find_subject
find_subject_found k s [] m e = elim m [ ]
find_subject_found k s (x ∷ subjects) (here q) e =
    let same : subject_key x ≡ k = sym (e ∙ ap subject_key q) in
    (x, rw ((key_eq.beq_iff (subject_key x) k).1 same) refl, same)
find_subject_found k s (x ∷ subjects) (there m) e = elim (Bool-cases (subject_key x == k)) [
  | inl h ↦ (x, rw h refl, (key_eq.beq_iff (subject_key x) k).0 h)
  | inr h ↦ rw h (find_subject_found k s subjects m e)
]

representative_first :
    (k : SubjectKey) (bindings : List Binding) (b : Binding)
    → Member b bindings
    → ((a : Binding) → Member a bindings → Names k a)
    → (x : Subject) × (representative k bindings ≡ some x) × (subject_key x ≡ k)
unfolding representative
representative_first k [] b m named = elim m [ ]
representative_first k (a ∷ bindings) b m named =
    let (s, n, e) = named a (here refl) in find_subject_found k s a.subjects n e

Member-single :
    (a b : Binding) (t : Bool) → Member a (if t then b ∷ [] else []) → (t ≡ true) × (a ≡ b)
Member-single a b true (here e) = (refl, e)
Member-single a b true (there m) = elim m [ ]
Member-single a b false m = elim m [ ]

occurrences_name :
    (k : SubjectKey) (a b : Binding) (subjects : List Subject)
    → Member a (occurrences k b subjects)
    → (a ≡ b) × (s : Subject) × Member s subjects × (k ≡ subject_key s)
occurrences_name k a b [] m = elim m [ ]
occurrences_name k a b (s ∷ subjects) m =
    elim (Member-append_cases a (if k == subject_key s then b ∷ [] else [])
      (occurrences k b subjects) (subst (Member a) (occurrences-cons k b s subjects) m)) [
        | inl n ↦
            let (h, e) = Member-single a b (k == subject_key s) n in
            (e, s, here refl, (key_eq.beq_iff k (subject_key s)).0 h)
        | inr n ↦ let (e, x, l, q) = occurrences_name k a b subjects n in (e, x, there l, q)
      ]

-- What the index holds for a key names it: the subject that the finding shows is there.
pub representative_of_bindings :
    (k : SubjectKey) (b : Binding) (bindings : List Binding)
    → Member b (bindings_of k bindings)
    → (x : Subject) × (representative k (bindings_of k bindings) ≡ some x) × (subject_key x ≡ k)
representative_of_bindings k b bindings m =
    representative_first k (bindings_of k bindings) b m (λ a n.
      let (c, l, o) = Member-of_flat_map (λ b. occurrences k b b.subjects) a bindings n in
      let (e, s, j, q) = occurrences_name k a c c.subjects o in subst (Names k) (sym e) (s, j, q))
