-- ===== src/Sync/Rwlock/Trial/Fits.antt =====
-- test-reader-pref.cpp, test-writer-pref.cpp: where the lock has a thread of the test.
use os_modules.Prelude.{◌≡◌, ◌⊎◌, inl, inr, true, arith}
use os_modules.Sync.Rwlock.System.{Pc, idle}
use os_modules.Sync.Rwlock.Trial.{
  Role, Stage, outside, acquired, released, finished, holds, in_call, Does, stays, waits, enters,
  leaves,
}

-- Where the lock has a thread of the test.
abbrev pub Fits : Role → Pc → Stage → Type 0
Fits ro p outside = (p ≡ idle) ⊎ (in_call ro p ≡ true)
Fits ro p finished = p ≡ idle
Fits ro p _ = p ≡ holds ro

abbrev pub NotedBoth : Stage → Type 0
NotedBoth st = (st ≡ released) ⊎ (st ≡ finished)

pub Does-Fits :
    {ro : Role} {p p' : Pc} {st st' : Stage} → Does ro p p' st st' → Fits ro p st → Fits ro p' st'
Does-Fits {ro} {p} {p'} {st} {st'} (stays e e') f = rw (e, e') f
Does-Fits {ro} {p} {p'} {st} {st'} (waits e a b) f = rw b (inr e)
Does-Fits {ro} {p} {p'} {st} {st'} (enters e a b) f = rw b e
Does-Fits {ro} {p} {p'} {st} {st'} (leaves a e b b') f = rw b' e

pub Does-acquired :
    {ro : Role} {p p' : Pc} {st st' : Stage} → Does ro p p' st st' → st' ≡ acquired → st ≡ acquired
Does-acquired (stays e e') h = cc
Does-acquired (waits e a b) h = absurd cc
Does-acquired (enters e a b) h = absurd cc
Does-acquired (leaves a e b b') h = absurd cc

pub Does-NotedBoth :
    {ro : Role} {p p' : Pc} {st st' : Stage} → Does ro p p' st st' → NotedBoth st' → NotedBoth st
Does-NotedBoth (stays e e') h = rw (← e') h
Does-NotedBoth (waits e a b) h = ground arith
Does-NotedBoth (enters e a b) h = ground arith
Does-NotedBoth (leaves a e b b') h = inl b
