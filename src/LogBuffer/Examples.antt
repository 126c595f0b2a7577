-- ===== src/LogBuffer/Examples.antt =====
-- Three lines in a buffer of two.
use new_yokosuka_server.Base.{◌≡◌, refl, arith, [], ◌∷◌}
use new_yokosuka_server.Base.Int.{pos}
use new_yokosuka_server.LogBuffer.{
  append_all, append_locked, last_of, write, new_buffer, split_lines, trim_return,
}
use new_yokosuka_server.LogBuffer.Ring.{append_all-last}

write_lines :
    (write (65 ∷ 13 ∷ 10 ∷ 66 ∷ 10 ∷ 67 ∷ []) (new_buffer (pos 2))).1
    ≡ record { max = 2; lines = (65 ∷ []) ∷ (66 ∷ []) ∷ []; pending = 67 ∷ [] }
unfolding write new_buffer split_lines trim_return append_all append_locked
write_lines = refl

append_all-last_example :
    (append_all
      ((1 ∷ []) ∷ (2 ∷ []) ∷ (3 ∷ []) ∷ [])
      (record { max = 2; lines = []; pending = [] })).lines
    ≡ last_of 2 ((1 ∷ []) ∷ (2 ∷ []) ∷ (3 ∷ []) ∷ [])
append_all-last_example = append_all-last 2 ((1 ∷ []) ∷ (2 ∷ []) ∷ (3 ∷ []) ∷ []) [] (omega arith)
