-- ===== src/Pipe/Ends.antt =====
-- pipe_countup and pipe_release: the two ends of a pipe.
use cyanurus.Base.{ℕ, suc, ◌<◌, bit_and, ◌≡◌, ◌≢◌, some, [], ◌++◌, arith, ◌==◌, if◌then◌else◌, u32}
use cyanurus.Pipe.{
  Pipe, kept, freed, settle, o_accmode, o_rdonly, o_wronly, wake_all_writers, wake_all_readers,
  countup, release,
}

-- A descriptor that is counted up and released again leaves the pipe as it was, as long as its
-- end was held already and the count does not reach 2 ^ 32.
pub release-countup :
    (p : Pipe) (flags : ℕ) {q : Pipe}
    → p.readers ≢ 0
    → p.writers ≢ 0
    → suc p.readers < u32
    → suc p.writers < u32
    → countup p flags ≡ some q
    → release q flags ≡ kept p
unfolding countup release settle
release-countup p flags r w hr hw e = ground arith

-- Releasing the last reader wakes every sleeping writer, and gives the pipe's memory back exactly
-- if no writer is left.
pub release_last_reader :
    (p : Pipe) (flags : ℕ)
    → bit_and flags o_accmode ≡ o_rdonly
    → p.readers ≡ 1
    → let q = record p { readers = 0; writers_waitq = []; ready = p.ready ++ p.writers_waitq } in
      release p flags ≡ (if p.writers == 0 then freed q else kept q)
unfolding release settle wake_all_writers
release_last_reader p flags h e = ground arith

-- Releasing the last writer wakes every sleeping reader, and gives the pipe's memory back exactly
-- if no reader is left.
pub release_last_writer :
    (p : Pipe) (flags : ℕ)
    → bit_and flags o_accmode ≡ o_wronly
    → p.writers ≡ 1
    → let q = record p { writers = 0; readers_waitq = []; ready = p.ready ++ p.readers_waitq } in
      release p flags ≡ (if p.readers == 0 then freed q else kept q)
unfolding release settle wake_all_readers
release_last_writer p flags h e = ground arith
