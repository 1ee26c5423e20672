-- ===== src/Exchange/Snapshot.antt =====
-- What exchange/main.cpp writes to the snapshot file at the end.
use toy_exchange.Base.{◌≡◌, refl, sym, ap, ap₂, ◌∙◌, List, [], ◌∷◌, Option, some, true, All}
use toy_exchange.Base.Int.{ℤ, pos, ◌+ℤ◌}
use toy_exchange.Core.Types.{Ticker, same_ticker, InboundCommand}
use toy_exchange.Extern.UnorderedMap.{IsMap, IsIteration}
use toy_exchange.Extern.Double.{Double}
use toy_exchange.Engine.Match.{OrderMap}
use toy_exchange.Engine.Router.{new_router}
use toy_exchange.Engine.User.{Inventory, Holding, User, volume_at, position}
use toy_exchange.Engine.UserRegistry.{UserRegistry, new_registry, market_participant_count}
use toy_exchange.Engine.UserRegistry.Snapshot.{Row, rows_of, rows, write_snapshot}
use toy_exchange.Engine.UserRegistry.Snapshot.Totals.{
  total_rows, total_rows-append, total_rows-distinct,
}
use toy_exchange.Workers.Inventory.Settlement.{total_position}
use toy_exchange.Exchange.{run_exchange}
use toy_exchange.Exchange.Balance.{HasUser, run_exchange-balanced}

module _ {W : Type 0} (d : Double W) (inv : Inventory W)
    (entries : inv.Table → List (Ticker × Holding W))
    (iteration : IsIteration inv same_ticker entries) where
  total_rows-rows_of :
      (u : User inv) (t : Ticker) → total_rows t (rows_of inv entries u) ≡ position d inv u t
  unfolding position
  total_rows-rows_of u t =
      total_rows-distinct t u.id (entries u.inventory) (iteration.distinct u.inventory)
      ∙ ap volume_at (sym (iteration.find-entries t u.inventory))

  total_rows-rows :
      (us : UserRegistry inv) (t : Ticker)
      → total_rows t (rows inv entries us) ≡ total_position d inv us t
  unfolding rows
  total_rows-rows [] t = refl
  total_rows-rows (u ∷ us) t =
      total_rows-append t (rows_of inv entries u) (rows inv entries us)
      ∙ ap₂ ◌+ℤ◌ (total_rows-rows_of u t) (total_rows-rows us t)

  -- From the start of the program: whatever commands come whose orders name users of the registry,
  -- and whatever mid prices are read, the run ends with a registry of which, if the file can be
  -- opened, the snapshot is written, and the positions in the rows of each ticker come to 0.
  pub write_snapshot-balanced :
      (m : OrderMap) (m_laws : IsMap m) (laws : IsMap inv) (commands : List InboundCommand)
      (mids : List (Option ℤ)) (t : Ticker)
      → All (HasUser market_participant_count) commands
      → (users : UserRegistry inv) × (file : List (Row W)) × (run_exchange m d inv
            (new_router m)
            (new_registry inv)
            commands
            mids
          ≡ some users)
        × (write_snapshot inv entries true users ≡ some file)
        × (total_rows t file ≡ pos 0)
  unfolding write_snapshot
  write_snapshot-balanced m m_laws laws commands mids t known =
      let (users, run, size, total) =
        run_exchange-balanced m m_laws d inv laws commands mids t known in
      (users, rows inv entries users, run, refl, total_rows-rows users t ∙ total)
