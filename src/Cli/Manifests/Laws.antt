-- ===== src/Cli/Manifests/Laws.antt =====
-- Which document of a manifest stands where in the graph that control-plane/app/cli.py builds.
use kaaval.Base.{
  ◌≡◌, refl, sym, ap, ◌∙◌, String, Bool, true, Option, some, List, [], ◌∷◌, ◌++◌, map,
  if◌then◌else◌, filter, flat_map, Bool-cases, inl, inr, ◌==◌, string_eq, option_eq, Eq,
}
use mathlib.Core.List.{append-nil, append_assoc}
use kaaval.Rbac.Graph.{Pod, Graph}
use kaaval.Cli.Manifests.{
  Doc, to_role, to_cluster_role, to_role_binding, to_cluster_role_binding, to_service_account,
  to_pod, workload_spec, is_workload, add_doc, add_docs, build_graph, empty_graph,
}

abbrev kind_eq : Eq (Option String)
kind_eq = option_eq

abbrev pub has_kind : String → Doc → Bool
has_kind k d = d.kind == some k

-- The element that a document with this test adds to a list.
abbrev pub adds {ℓ} : {A : Type ℓ} → Bool → A → List A
adds test a = if test then a ∷ [] else []

-- A pod, or a workload by its template.
abbrev pub pods_of : Doc → List Pod
pods_of d =
    if has_kind "Pod" d
    then to_pod d d.spec ∷ []
    else adds (is_workload d.kind) (to_pod d (workload_spec d))

kind_is : (d : Doc) (k : String) → (d.kind == some k) ≡ true → d.kind ≡ some k
kind_is d k h = (kind_eq.beq_iff d.kind (some k)).0 h

add_doc_law :
    (g : Graph) (d : Doc)
    → ((add_doc g d).roles ≡ g.roles ++ adds (has_kind "Role" d) (to_role d))
      × ((add_doc g d).cluster_roles
          ≡ g.cluster_roles ++ adds (has_kind "ClusterRole" d) (to_cluster_role d))
      × ((add_doc g d).role_bindings
          ≡ g.role_bindings ++ adds (has_kind "RoleBinding" d) (to_role_binding d))
      × ((add_doc g d).cluster_role_bindings
          ≡ g.cluster_role_bindings
            ++ adds (has_kind "ClusterRoleBinding" d) (to_cluster_role_binding d))
      × ((add_doc g d).service_accounts
          ≡ g.service_accounts ++ adds (has_kind "ServiceAccount" d) (to_service_account d))
      × ((add_doc g d).pods ≡ g.pods ++ pods_of d)
unfolding add_doc
add_doc_law g d = elim (Bool-cases (d.kind == some "Role")) [
  | inl h0 ↦
      rw (kind_is d "Role" h0, add_doc)
        (
          refl,
          sym (append-nil _),
          sym (append-nil _),
          sym (append-nil _),
          sym (append-nil _),
          sym (append-nil _),
        )
  | inr h0 ↦ elim (Bool-cases (d.kind == some "ClusterRole")) [
    | inl h1 ↦
        rw (kind_is d "ClusterRole" h1, add_doc)
          (
            sym (append-nil _),
            refl,
            sym (append-nil _),
            sym (append-nil _),
            sym (append-nil _),
            sym (append-nil _),
          )
    | inr h1 ↦ elim (Bool-cases (d.kind == some "RoleBinding")) [
      | inl h2 ↦
          rw (kind_is d "RoleBinding" h2, add_doc)
            (
              sym (append-nil _),
              sym (append-nil _),
              refl,
              sym (append-nil _),
              sym (append-nil _),
              sym (append-nil _),
            )
      | inr h2 ↦ elim (Bool-cases (d.kind == some "ClusterRoleBinding")) [
        | inl h3 ↦
            rw (kind_is d "ClusterRoleBinding" h3, add_doc)
              (
                sym (append-nil _),
                sym (append-nil _),
                sym (append-nil _),
                refl,
                sym (append-nil _),
                sym (append-nil _),
              )
        | inr h3 ↦ elim (Bool-cases (d.kind == some "ServiceAccount")) [
          | inl h4 ↦
              rw (kind_is d "ServiceAccount" h4, add_doc)
                (
                  sym (append-nil _),
                  sym (append-nil _),
                  sym (append-nil _),
                  sym (append-nil _),
                  refl,
                  sym (append-nil _),
                )
          | inr h4 ↦ elim (Bool-cases (d.kind == some "Pod")) [
            | inl h5 ↦
                rw (kind_is d "Pod" h5, add_doc)
                  (
                    sym (append-nil _),
                    sym (append-nil _),
                    sym (append-nil _),
                    sym (append-nil _),
                    sym (append-nil _),
                    refl,
                  )
            | inr h5 ↦ elim (Bool-cases (is_workload d.kind)) [
              | inl w ↦
                  rw (h0, h1, h2, h3, h4, h5, w)
                    (
                      sym (append-nil _),
                      sym (append-nil _),
                      sym (append-nil _),
                      sym (append-nil _),
                      sym (append-nil _),
                      refl,
                    )
              | inr w ↦
                  rw (h0, h1, h2, h3, h4, h5, w)
                    (
                      sym (append-nil _),
                      sym (append-nil _),
                      sym (append-nil _),
                      sym (append-nil _),
                      sym (append-nil _),
                      sym (append-nil _),
                    )
            ]
          ]
        ]
      ]
    ]
  ]
]

module _ {A : Type 0} (list : Graph → List A) where
  adds-map :
      (p : Doc → Bool) (f : Doc → A) (d : Doc) (xs : List A) (docs : List Doc)
      → (xs ++ adds (p d) (f d)) ++ map f (filter p docs) ≡ xs ++ map f (filter p (d ∷ docs))
  unfolding filter
  adds-map p f d xs docs = elim (Bool-cases (p d)) [
    | inl h ↦ rw h (append_assoc xs (f d ∷ []) (map f (filter p docs)))
    | inr h ↦ rw h (ap (λ ys. ys ++ map f (filter p docs)) (append-nil xs))
  ]

  -- A list to which each document that passes the test adds an element.
  add_docs-filter :
      (p : Doc → Bool) (f : Doc → A)
      → ((g : Graph) (d : Doc) → list (add_doc g d) ≡ list g ++ adds (p d) (f d))
      → (docs : List Doc) (g : Graph) → list (add_docs docs g) ≡ list g ++ map f (filter p docs)
  unfolding add_docs filter
  add_docs-filter p f law [] g = sym (append-nil (list g))
  add_docs-filter p f law (d ∷ docs) g =
      add_docs-filter p f law docs (add_doc g d)
      ∙ ap (λ xs. xs ++ map f (filter p docs)) (law g d)
      ∙ adds-map p f d (list g) docs

add_docs-pods :
    (docs : List Doc) (g : Graph) → (add_docs docs g).pods ≡ g.pods ++ flat_map pods_of docs
unfolding add_docs flat_map
add_docs-pods [] g = sym (append-nil g.pods)
add_docs-pods (d ∷ docs) g =
    let (r, c, rb, cb, sa, p) = add_doc_law g d in
    add_docs-pods docs (add_doc g d)
    ∙ ap (λ xs. xs ++ flat_map pods_of docs) p
    ∙ append_assoc g.pods (pods_of d) (flat_map pods_of docs)

-- Each list of the graph is that of the documents of its kind, in their order: roles, bindings and
-- accounts by the kind of that name, pods by the kind Pod and by each workload's pod template. A
-- document of another kind stands nowhere.
pub build_graph_collects :
    (docs : List Doc)
    → ((build_graph docs).roles ≡ map to_role (filter (has_kind "Role") docs))
      × ((build_graph docs).cluster_roles
          ≡ map to_cluster_role (filter (has_kind "ClusterRole") docs))
      × ((build_graph docs).role_bindings
          ≡ map to_role_binding (filter (has_kind "RoleBinding") docs))
      × ((build_graph docs).cluster_role_bindings
          ≡ map to_cluster_role_binding (filter (has_kind "ClusterRoleBinding") docs))
      × ((build_graph docs).service_accounts
          ≡ map to_service_account (filter (has_kind "ServiceAccount") docs))
      × ((build_graph docs).pods ≡ flat_map pods_of docs)
unfolding build_graph
build_graph_collects docs = (
  add_docs-filter (λ g. g.roles) (has_kind "Role") to_role (λ g d. (add_doc_law g d).0) docs
      empty_graph,
  add_docs-filter (λ g. g.cluster_roles) (has_kind "ClusterRole") to_cluster_role
      (λ g d. (add_doc_law g d).1) docs empty_graph,
  add_docs-filter (λ g. g.role_bindings) (has_kind "RoleBinding") to_role_binding
      (λ g d. (add_doc_law g d).2) docs empty_graph,
  add_docs-filter (λ g. g.cluster_role_bindings) (has_kind "ClusterRoleBinding")
      to_cluster_role_binding (λ g d. (add_doc_law g d).3) docs empty_graph,
  add_docs-filter (λ g. g.service_accounts) (has_kind "ServiceAccount") to_service_account
      (λ g d. (add_doc_law g d).4) docs empty_graph,
  add_docs-pods docs empty_graph,
)
