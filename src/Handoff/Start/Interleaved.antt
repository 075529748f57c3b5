-- ===== src/Handoff/Start/Interleaved.antt =====
-- `start` of src/handoff.ts and the steps of Handoff/Interleaving.antt.
use x.Prelude.{String, Bool, true, false, Result, ok, err, List}
use x.Stores.Requirements
use x.Handoff.{StoredHumanHandoff, HumanHandoffService}
use x.Handoff.Store.{HandoffStore, create}
use x.Handoff.Start.{StartHumanHandoffInput, StartReadings, prepare, created, store_prepared, start}
use x.Handoff.Interleaving.{creates, Run, stop, next}

module _ (sha256 : String → String) where
  created-Run :
      (made : StoredHumanHandoff) (access_token : String) (s : HandoffStore)
      (ps : List StoredHumanHandoff) (w : HandoffStore × Bool)
      → Run (s, ps) (w.0, ps)
      → Run (s, ps) ((created sha256 made access_token w).0, ps)
  unfolding created
  created-Run made access_token s ps (t, true) run = run
  created-Run made access_token s ps (t, false) run = run

  store_prepared-Run :
      (access_token : String) (prepared : Result StoredHumanHandoff) (s : HandoffStore)
      (ps : List StoredHumanHandoff)
      → Run (s, ps) ((store_prepared sha256 access_token prepared s).0, ps)
  unfolding store_prepared
  store_prepared-Run access_token (err message) s ps = stop (s, ps)
  store_prepared-Run access_token (ok made) s ps =
      created-Run made access_token s ps (create made s)
        (next (creates made s ps) (stop ((create made s).0, ps)))

  -- With any records in the hands of other calls, a call of `start` makes steps of the
  -- interleaving, and gives no call a record.
  pub start-Run :
      (service : HumanHandoffService) (input : StartHumanHandoffInput) (readings : StartReadings)
      (s : HandoffStore) (requirements : Requirements.RequirementStore)
      (ps : List StoredHumanHandoff)
      → Run (s, ps) ((start sha256 service input readings (s, requirements)).0.0, ps)
  unfolding start
  start-Run service input readings s requirements ps =
      store_prepared-Run readings.access_token
        (prepare sha256 service input readings
          (Requirements.get input.dependency_id readings.requirement_at requirements).1)
        s ps
