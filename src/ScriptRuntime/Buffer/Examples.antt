-- ===== src/ScriptRuntime/Buffer/Examples.antt =====
-- Three writes to a buffer of four bytes.
use new_yokosuka_server.Base.{◌≡◌, [], ◌∷◌}
use new_yokosuka_server.ScriptRuntime.Buffer.{write, write_all, write_all-take, take, join}

write_all-take_example :
    ((write_all ((1 ∷ 2 ∷ []) ∷ (3 ∷ 4 ∷ 5 ∷ []) ∷ []) (record { value = []; limit = 4 })).value
      ≡ take 4 (join ((1 ∷ 2 ∷ []) ∷ (3 ∷ 4 ∷ 5 ∷ []) ∷ [])))
    × ((write
          (6 ∷ [])
          (write_all ((1 ∷ 2 ∷ []) ∷ (3 ∷ 4 ∷ 5 ∷ []) ∷ []) (record { value = []; limit = 4 }))).0
        ≡ 1)
write_all-take_example = write_all-take 4 ((1 ∷ 2 ∷ []) ∷ (3 ∷ 4 ∷ 5 ∷ []) ∷ []) (6 ∷ [])
