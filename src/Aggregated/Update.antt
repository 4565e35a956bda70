-- ===== src/Aggregated/Update.antt =====
-- aggregated_book/aggregated_book.cpp: what an update changes and what is broadcast for it.
use system_k_dev.Base.{ℕ, ◌≡◌, refl, false, List, [], ◌∷◌, arith, ◌⊎◌, inl, inr}
use system_k_dev.Double.{DoubleOps}
use system_k_dev.Book.Limit.{Timespec}
use system_k_dev.Aggregated.{
  Venue, InstrumentInfo, InstrumentBbo, strcmp8, strncmp8, is_venue, update_venues,
  update_instruments, update_order_books,
}

module _ {F : Type 0} where
  -- No venue of the list is the update's.
  abbrev pub NoVenue : InstrumentBbo F → List (Venue F) → Type 0
  NoVenue bbo [] = Unit {0}
  NoVenue bbo (v ∷ vs) = (is_venue bbo v ≡ false) × NoVenue bbo vs

  -- Every instrument of the list has another symbol, or no venue of the update.
  abbrev pub NoneFits : InstrumentBbo F → List (InstrumentInfo F) → Type 0
  NoneFits bbo [] = Unit {0}
  NoneFits bbo (i ∷ is) =
      ((strcmp8 bbo.symbol i.symbol ≡ false) ⊎ NoVenue bbo i.venues) × NoneFits bbo is

  -- Every instrument of the list has another symbol, as either comparison sees it.
  abbrev pub OtherSymbol : InstrumentBbo F → List (InstrumentInfo F) → Type 0
  OtherSymbol bbo [] = Unit {0}
  OtherSymbol bbo (i ∷ is) =
      ((strcmp8 bbo.symbol i.symbol ≡ false) × (strncmp8 bbo.symbol i.symbol ≡ false))
      × OtherSymbol bbo is

  no_venue :
      (bbo : InstrumentBbo F) (now : Timespec) (vs : List (Venue F))
      → NoVenue bbo vs
      → update_venues bbo now vs ≡ (false, vs)
  unfolding update_venues
  no_venue bbo now [] n = refl
  no_venue bbo now (v ∷ vs) n = ground (arith, n.0, no_venue bbo now vs n.1)

  none_fits :
      (bbo : InstrumentBbo F) (now : Timespec) (is : List (InstrumentInfo F))
      → NoneFits bbo is
      → ((update_instruments bbo now is).1 ≡ false) × ((update_instruments bbo now is).2 ≡ is)
  unfolding update_instruments
  none_fits bbo now [] n = (refl, refl)
  none_fits bbo now (i ∷ is) ((inl other), n) =
      let (found, same) = none_fits bbo now is n in
      (ground (arith, other, found), ground (arith, other, same))
  none_fits bbo now (i ∷ is) ((inr nowhere), n) =
      let (found, same) = none_fits bbo now is n in
      let kept = no_venue bbo now i.venues nowhere in
      (ground (arith, kept, found), ground (arith, kept, same))

module _ {F : Type 0} (d : DoubleOps F) where
  -- An update whose symbol no instrument has with one of its venues changes no quote, uses no
  -- sequence number and broadcasts nothing.
  pub update_order_books-unknown :
      (bbo : InstrumentBbo F) (now : Timespec) (seq : ℕ) (is : List (InstrumentInfo F))
      → NoneFits bbo is
      → update_order_books d bbo now seq is ≡ ([], seq, is)
  unfolding update_order_books
  update_order_books-unknown bbo now seq is n =
      let (found, same) = none_fits bbo now is n in ground (arith, found, same)
