-- ===== src/Vmem/Owned.antt =====
-- Which physical pages the two maps own, and that nothing is owned twice.
use proba_artifact.Prelude.{
  ℕ, ◌+◌, ◌*◌, ◌/◌, ◌%◌, ◌<◌, ◌≡◌, ◌≢◌, inl, inr, sym, ◌∙◌, ap, none, some, List, ◌∷◌, arith,
}
use proba_artifact.Prelude.Keyed.{lookup, lookup-cons}
use proba_artifact.Vmem.{VirtualPage, PageTableKey, virtual_page_key, page_table_key}
use proba_artifact.Vmem.Pages.{page_below, page_above, page_next, slot_of_page, slot_next-page}

abbrev pub Pages : Type 0
Pages = List (VirtualPage × ℕ)

abbrev pub Tables : Type 0
Tables = List (PageTableKey × ℕ)

module _ (p s : ℕ) where
  -- Each mapped page is a whole page below the next free one, each table a slot in a page of its own
  -- kind, and no two keys share one.
  pub record Apart (pages : Pages) (tables : Tables) (next : ℕ) : Type 0 where
    pub aligned : next % p ≡ 0
    pub page_whole : (k : VirtualPage) (d : ℕ) → lookup k pages ≡ some d → d % p ≡ 0
    pub page_below_next : (k : VirtualPage) (d : ℕ) → lookup k pages ≡ some d → d < next
    pub page_apart :
        (k l : VirtualPage) (d : ℕ) → lookup k pages ≡ some d → lookup l pages ≡ some d → k ≡ l
    pub table_slot : (k : PageTableKey) (e : ℕ) → lookup k tables ≡ some e → e % s ≡ 0
    pub table_below_next : (k : PageTableKey) (e : ℕ) → lookup k tables ≡ some e → e < next
    pub table_apart :
        (k l : PageTableKey) (e : ℕ) → lookup k tables ≡ some e → lookup l tables ≡ some e → k ≡ l
    pub kinds_apart :
        (k : VirtualPage) (l : PageTableKey) (d e : ℕ)
        → lookup k pages ≡ some d
        → lookup l tables ≡ some e
        → d / p ≢ e / p

  -- The slot for the next table: no mapped page has its page, and the tables in it lie before it.
  pub record Open (pages : Pages) (tables : Tables) (slot next : ℕ) : Type 0 where
    pub slot_of : slot % s ≡ 0
    pub slot_below : slot < next
    pub no_page : (k : VirtualPage) (d : ℕ) → lookup k pages ≡ some d → d / p ≢ slot / p
    pub before : (k : PageTableKey) (e : ℕ) → lookup k tables ≡ some e → e / p ≡ slot / p → e < slot

module _ (p s q : ℕ) (pos : 0 < p) (spos : 0 < s) (slots : p ≡ s * q) where
  -- A new virtual page takes the next physical page.
  module _ (key : VirtualPage) (pages : Pages) (tables : Tables) (next : ℕ)
      (a : Apart p s pages tables next) where
    new_page : Pages
    new_page = (key, next) ∷ pages

    page_apart_new :
        (missing : lookup key pages ≡ none) (k l : VirtualPage) (d : ℕ)
        → lookup k ((key, next) ∷ pages) ≡ some d
        → lookup l ((key, next) ∷ pages) ≡ some d
        → k ≡ l
    page_apart_new missing k l d f g = elim (lookup-cons key k next d pages f) [
      | inl (ek, en) ↦ elim (lookup-cons key l next d pages g) [
        | inl (el, _) ↦ sym ek ∙ el
        | inr old ↦ absurd (omega (arith, a.page_below_next l d old))
      ]
      | inr old ↦ elim (lookup-cons key l next d pages g) [
        | inl (el, en) ↦ absurd (omega (arith, a.page_below_next k d old))
        | inr old' ↦ a.page_apart k l d old old'
      ]
    ]

    pub map_page-Apart : lookup key pages ≡ none → Apart p s ((key, next) ∷ pages) tables (next + p)
    map_page-Apart missing = record {
      aligned = page_next p pos next a.aligned;
      page_whole = λ k d f. elim (lookup-cons key k next d pages f) [
        | inl (_, en) ↦ ap (λ (t : ℕ). t % p) (sym en) ∙ a.aligned
        | inr old ↦ a.page_whole k d old
      ];
      page_below_next = λ k d f. elim (lookup-cons key k next d pages f) [
        | inl (_, en) ↦ omega arith
        | inr old ↦ omega (arith, a.page_below_next k d old)
      ];
      page_apart = page_apart_new missing;
      table_slot = a.table_slot;
      table_below_next = λ k e f. omega (arith, a.table_below_next k e f);
      table_apart = a.table_apart;
      kinds_apart = λ k l d e f g. elim (lookup-cons key k next d pages f) [
        | inl (_, en) ↦ λ same. absurd (
            omega (
              arith,
              ap (λ (t : ℕ). t / p) en,
              page_below p pos e next (a.table_below_next l e g) a.aligned,
            ))
        | inr old ↦ a.kinds_apart k l d e old g
      ];
    }

    pub map_page-Open :
        (slot : ℕ)
        → Open p s pages tables slot next
        → Open p s ((key, next) ∷ pages) tables slot (next + p)
    map_page-Open slot o = record {
      slot_of = o.slot_of;
      slot_below = omega (arith, o.slot_below);
      no_page = λ k d f. elim (lookup-cons key k next d pages f) [
        | inl (_, en) ↦ λ same. absurd (
            omega
              (arith, ap (λ (t : ℕ). t / p) en, page_below p pos slot next o.slot_below a.aligned))
        | inr old ↦ o.no_page k d old
      ];
      before = o.before;
    }

  module _ (pages : Pages) (tables : Tables) (next : ℕ) (a : Apart p s pages tables next) where
    -- The next physical page is taken for tables.
    pub take-Apart : Apart p s pages tables (next + p)
    take-Apart = record {
      aligned = page_next p pos next a.aligned;
      page_whole = a.page_whole;
      page_below_next = λ k d f. omega (arith, a.page_below_next k d f);
      page_apart = a.page_apart;
      table_slot = a.table_slot;
      table_below_next = λ k e f. omega (arith, a.table_below_next k e f);
      table_apart = a.table_apart;
      kinds_apart = a.kinds_apart;
    }

    pub take-Open : Open p s pages tables next (next + p)
    take-Open = record {
      slot_of = slot_of_page p s q pos slots next a.aligned;
      slot_below = omega arith;
      no_page = λ k d f e.
          absurd (omega (arith, page_below p pos d next (a.page_below_next k d f) a.aligned));
      before = λ k e f same.
          absurd (omega (arith, page_below p pos e next (a.table_below_next k e f) a.aligned));
    }

    -- A new table takes the open slot.
    module _ (key : PageTableKey) (slot : ℕ) (o : Open p s pages tables slot next) where
      table_apart_new :
          (k l : PageTableKey) (e : ℕ)
          → lookup k ((key, slot) ∷ tables) ≡ some e
          → lookup l ((key, slot) ∷ tables) ≡ some e
          → k ≡ l
      table_apart_new k l e f g = elim (lookup-cons key k slot e tables f) [
        | inl (ek, en) ↦ elim (lookup-cons key l slot e tables g) [
          | inl (el, _) ↦ sym ek ∙ el
          | inr old ↦ absurd (omega (arith, o.before l e old (ap (λ (t : ℕ). t / p) (sym en))))
        ]
        | inr old ↦ elim (lookup-cons key l slot e tables g) [
          | inl (el, en) ↦ absurd (omega (arith, o.before k e old (ap (λ (t : ℕ). t / p) (sym en))))
          | inr old' ↦ a.table_apart k l e old old'
        ]
      ]

      pub map_table-Apart : Apart p s pages ((key, slot) ∷ tables) next
      map_table-Apart = record {
        aligned = a.aligned;
        page_whole = a.page_whole;
        page_below_next = a.page_below_next;
        page_apart = a.page_apart;
        table_slot = λ k e f. elim (lookup-cons key k slot e tables f) [
          | inl (_, en) ↦ ap (λ (t : ℕ). t % s) (sym en) ∙ o.slot_of
          | inr old ↦ a.table_slot k e old
        ];
        table_below_next = λ k e f. elim (lookup-cons key k slot e tables f) [
          | inl (_, en) ↦ omega (arith, o.slot_below)
          | inr old ↦ a.table_below_next k e old
        ];
        table_apart = table_apart_new;
        kinds_apart = λ k l d e f g. elim (lookup-cons key l slot e tables g) [
          | inl (_, en) ↦ λ same. o.no_page k d f (same ∙ ap (λ (t : ℕ). t / p) (sym en))
          | inr old ↦ a.kinds_apart k l d e f old
        ];
      }

      -- The slot after it is open where it does not begin a page.
      pub map_table-Open :
          (slot + s) % p ≢ 0 → Open p s pages ((key, slot) ∷ tables) (slot + s) next
      map_table-Open inside =
          let same_page = slot_next-page p s q pos slots slot o.slot_of inside in
          record {
            slot_of = page_next s spos slot o.slot_of;
            slot_below =
                page_above p pos (slot + s) next
                  (omega (arith, same_page, page_below p pos slot next o.slot_below a.aligned))
                  a.aligned;
            no_page = λ k d f e. o.no_page k d f (e ∙ same_page);
            before = λ k e f same. elim (lookup-cons key k slot e tables f) [
              | inl (_, en) ↦ omega arith
              | inr old ↦ omega (arith, o.before k e old (same ∙ same_page))
            ];
          }
