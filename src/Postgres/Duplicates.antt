-- ===== src/Postgres/Duplicates.antt =====
-- The two stores differ on a text that a tenant ingests twice.
use tenantvault_zero_trust_r.Result.{Result}
use tenantvault_zero_trust_r.Platform.{Platform}
use tenantvault_zero_trust_r.Memory
