-- ===== src/Reference/Profile/Order.antt =====
-- The orders that the catalogue sorts by are orders to sort by, so that a sort exists.
use rom_m_swarm.Common.{
  text_lt_step, text_lt_asym, ◌≡◌, refl, true, false, Option, none, some, get_elem?, lt_int_asym,
  lt_int_step, IsWeakOrder, stable_sorter, Sorter, arith, List,
}
use rom_m_swarm.Reference.{Entry}
use rom_m_swarm.Reference.Lookup.{comes_before}
use rom_m_swarm.Reference.Profile.{Profile, Sorters, preferred, both_preferred, prefers}

pub comes_before-IsWeakOrder : IsWeakOrder comes_before
unfolding comes_before
comes_before-IsWeakOrder = record {
  asym = λ x y h. ground (arith, text_lt_asym x.entry.rom_name y.entry.rom_name);
  step =
      λ x y z h k. ground (arith, text_lt_step x.entry.rom_name y.entry.rom_name z.entry.rom_name);
}

module _ (p : Profile) where
  preferred-IsWeakOrder : IsWeakOrder (preferred p)
  unfolding preferred
  preferred-IsWeakOrder = record {
    asym = λ a b h. ground (
      arith,
      lt_int_asym b.revision_rank a.revision_rank,
      lt_int_asym a.revision_rank b.revision_rank,
      text_lt_asym a.rom_name b.rom_name,
    );
    step = λ a b c h k. ground (
      arith,
      lt_int_step c.revision_rank b.revision_rank a.revision_rank,
      lt_int_step a.revision_rank c.revision_rank b.revision_rank,
      lt_int_step b.revision_rank a.revision_rank c.revision_rank,
      text_lt_step a.rom_name b.rom_name c.rom_name,
    );
  }

  both_asym : (a b : Option Entry) → both_preferred p a b ≡ true → both_preferred p b a ≡ false
  both_asym none b h = absurd cc
  both_asym (some a) none h = refl
  both_asym (some a) (some b) h = preferred-IsWeakOrder.asym a b h

  both_step :
      (a b c : Option Entry)
      → both_preferred p b a ≡ false
      → both_preferred p c b ≡ false
      → both_preferred p c a ≡ false
  both_step a b none h k = refl
  both_step a none (some c) h k = absurd cc
  both_step none (some b) (some c) h k = absurd cc
  both_step (some a) (some b) (some c) h k = preferred-IsWeakOrder.step a b c h k

  both-IsWeakOrder : IsWeakOrder (both_preferred p)
  both-IsWeakOrder = record { asym = both_asym; step = both_step }

  pub prefers-IsWeakOrder : (es : List Entry) → IsWeakOrder (prefers p es)
  unfolding prefers
  prefers-IsWeakOrder es = record {
    asym = λ i j h. both-IsWeakOrder.asym (get_elem? es i) (get_elem? es j) h;
    step =
        λ i j k h l. both-IsWeakOrder.step (get_elem? es i) (get_elem? es j) (get_elem? es k) h l;
  }

abbrev pub match_sorter : Sorter comes_before
match_sorter = stable_sorter comes_before comes_before-IsWeakOrder

abbrev pub index_sorters : Sorters
index_sorters p es = stable_sorter (prefers p es) (prefers-IsWeakOrder p es)
