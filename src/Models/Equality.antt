-- ===== src/Models/Equality.antt =====
-- `==` of playlist dictionaries, decided field by field.
use native.Mathlib.Decide.{ℕ_discrete}
use mupitech_player.Models.{Entry, Json}

Json-discrete : Discrete Json
Json-discrete = hlevel ℕ_discrete

pub Entry-discrete : Discrete Entry
Entry-discrete = hlevel (ℕ_discrete, Json-discrete)
