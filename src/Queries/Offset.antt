-- ===== src/Queries/Offset.antt =====
-- A page of `GetManyByOffset` and its total.
use litestar_cqrs_example.Common.{nat_eq, string_eq}
