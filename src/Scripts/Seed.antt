-- ===== src/Scripts/Seed.antt =====
-- What the parts of the scripts leave.
use ledger_ops_api.Database.Tables.{Database}

-- Whatever the scripts are given, whether they return or throw, the database that each of their parts leaves (the first key of an
-- administrator, the merchants and keys, the payments, the refunds and the dispute, the exceptions, the repeated sweep of the expired
-- batch, on any fuel on which it ends) is one that calls of the services reach. What other requests do during a call, or between a sweep and its readings, has to be calls of the services as well.
