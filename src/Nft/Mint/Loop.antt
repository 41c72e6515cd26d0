-- ===== src/Nft/Mint/Loop.antt =====
-- The loop over the nodes of getNFTokenMintData (src/etl/NFTHelpers.cpp) gathers what the pages tell.
use clio_migrator.Prelude.{
  ℕ, ◌≡◌, ◌↔◌, refl, sym, ap, ap₂, ◌∙◌, subst, inl, inr, List, [], ◌∷◌, ◌++◌, append_assoc,
  append-nil, true, false, Option, none, some, ◌==◌, arith, Bool-cases,
}
use clio_migrator.Outcome.{returns, ◌>>=◌, returns-injective, >>=-eq-returns}
use clio_migrator.Ripple.{Ripple, sf_ledger_entry_type, sf_ledger_index}
use clio_migrator.Nft.Mint.{MintIds, no_ids, first_owner, mint_page, mint_node, mint_nodes}
use clio_migrator.Nft.Mint.Gathers.{
  Gathers, none_left, other_object, first_page, next_page, added, page_with, page-PageIds,
  PageIds-page,
}

module _ (r : Ripple) where
  open r use {StObject, get_field_u16, get_field_h256, account_from_void, lt_nftoken_page}

  abbrev Told : Option ℕ → List StObject → MintIds → MintIds → Type 0
  Told owner nodes a b =
      (p : List ℕ) × (f : List ℕ) × (last : Option ℕ) × Gathers r owner nodes p f last
      × (b ≡ added r a p f last)

  added-twice :
      (a : MintIds) (p f ps fs : List ℕ) (o last : Option ℕ)
      → added r (added r a p f o) ps fs last ≡ added r a (p ++ ps) (f ++ fs) last
  added-twice a p f ps fs o last =
      ap₂ (λ l m. record { prev_ids = l; final_ids = m; owner = last })
        (append_assoc a.prev_ids p ps) (append_assoc a.final_ids f fs)

  added-nothing : (a : MintIds) → a ≡ added r a [] [] a.owner
  added-nothing a =
      ap₂ (λ l m. record { prev_ids = l; final_ids = m; owner = a.owner })
        (sym (append-nil a.prev_ids)) (sym (append-nil a.final_ids))

  page-Told :
      (node : StObject) (nodes : List StObject) (o : Option ℕ) (a b c : MintIds)
      → get_field_u16 node sf_ledger_entry_type ≡ returns lt_nftoken_page
      → (first_owner r node o >>= λ owner. page_with r node owner a) ≡ returns b
      → ((owner : Option ℕ) → b.owner ≡ owner → Told owner nodes b c)
      → Told o (node ∷ nodes) a c
  unfolding first_owner
  page-Told node nodes none a b c t h rest =
      let (owner, e, h₁) = >>=-eq-returns (first_owner r node none) _ h in
      let (index, g, k) = >>=-eq-returns (get_field_h256 node sf_ledger_index) _ e in
      let same : account_from_void index ≡ owner = returns-injective _ owner k in
      let (p, f, ids, q) = page-PageIds r node owner a b h₁ in
      let (ps, fs, last, told, s) =
        rest (some (account_from_void index)) (ap (λ x. x.owner) q ∙ ap some (sym same)) in
      (
        p ++ ps,
        f ++ fs,
        last,
        first_page node index t g ids told,
        s ∙ ap (λ x. added r x ps fs last) q ∙ added-twice a p f ps fs (some owner) last,
      )
  page-Told node nodes (some o) a b c t h rest =
      let (p, f, ids, q) = page-PageIds r node o a b h in
      let (ps, fs, last, told, s) = rest (some o) (ap (λ x. x.owner) q) in
      (
        p ++ ps,
        f ++ fs,
        last,
        next_page node o t ids told,
        s ∙ ap (λ x. added r x ps fs last) q ∙ added-twice a p f ps fs (some o) last,
      )

  mint_nodes-Told :
      (nodes : List StObject) (a c : MintIds) (o : Option ℕ)
      → a.owner ≡ o
      → mint_nodes r nodes a ≡ returns c
      → Told o nodes a c
  unfolding mint_nodes mint_node mint_page
  mint_nodes-Told [] a c o p h = (
    [],
    [],
    o,
    none_left,
    sym (returns-injective a c h) ∙ added-nothing a ∙ ap (added r a [] []) p,
  )
  mint_nodes-Told (node ∷ nodes) a c o p h =
      let (b, e, h₁) = >>=-eq-returns (mint_node r node a) _ h in
      let (entry_type, f, h₂) = >>=-eq-returns (get_field_u16 node sf_ledger_entry_type) _ e in
      elim (Bool-cases (entry_type == lt_nftoken_page)) [
        | inl q ↦
            let same : entry_type ≡ lt_nftoken_page = ground (arith, q) in
            page-Told node nodes o a b c
              (subst (λ t. get_field_u16 node sf_ledger_entry_type ≡ returns t) same f)
              (subst (λ x. (first_owner r node x >>= λ owner. page_with r node owner a) ≡ returns b)
                p (rw q at h₂))
              (λ owner s. mint_nodes-Told nodes b c owner s h₁)
        | inr q ↦
            let same : a ≡ b = returns-injective a b (rw q at h₂) in
            let (ps, fs, last, told, s) =
              mint_nodes-Told nodes a c o p
                (subst (λ x. mint_nodes r nodes x ≡ returns c) (sym same) h₁) in
            (
              ps,
              fs,
              last,
              other_object node entry_type f (λ t. absurd (ground (arith, q, t))) told,
              s,
            )
      ]

  Gathers-mint_nodes :
      {o last : Option ℕ} {nodes : List StObject} {p f : List ℕ} (a : MintIds)
      → a.owner ≡ o
      → Gathers r o nodes p f last
      → mint_nodes r nodes a ≡ returns (added r a p f last)
  unfolding mint_nodes mint_node mint_page first_owner
  Gathers-mint_nodes a q none_left = ap returns (added-nothing a ∙ ap (added r a [] []) q)
  Gathers-mint_nodes a q (other_object node entry_type e n g) =
      let other : (entry_type == lt_nftoken_page) ≡ false =
        elim (Bool-cases (entry_type == lt_nftoken_page)) [
          | inl b ↦ absurd (n (ground (arith, b)))
          | inr b ↦ b
        ] in
      rw (e, other) (Gathers-mint_nodes a q g)
  Gathers-mint_nodes a q (first_page {last} {nodes} {p} {f} {prev} {final} node index t e ids g) =
      let is_page : (lt_nftoken_page == lt_nftoken_page) ≡ true = ground arith in
      let owner = account_from_void index in
      rw (t, is_page, q, e, PageIds-page r node owner a ids)
        (Gathers-mint_nodes (added r a p f (some owner)) refl g
          ∙ ap returns (added-twice a p f prev final (some owner) last))
  Gathers-mint_nodes a q (next_page {last} {nodes} {p} {f} {prev} {final} node owner t ids g) =
      let is_page : (lt_nftoken_page == lt_nftoken_page) ≡ true = ground arith in
      rw (t, is_page, q, PageIds-page r node owner a ids)
        (Gathers-mint_nodes (added r a p f (some owner)) refl g
          ∙ ap returns (added-twice a p f prev final (some owner) last))

  pub mint_nodes_iff :
      (nodes : List StObject) (a : MintIds)
      → (mint_nodes r nodes no_ids ≡ returns a)
        ↔ Gathers r none nodes a.prev_ids a.final_ids a.owner
  mint_nodes_iff nodes a = (
    (λ h.
        let (p, f, last, told, s) = mint_nodes-Told nodes no_ids a none refl h in
        subst (λ (x : MintIds). Gathers r none nodes x.prev_ids x.final_ids x.owner) (sym s) told),
    (λ g. Gathers-mint_nodes no_ids refl g),
  )
