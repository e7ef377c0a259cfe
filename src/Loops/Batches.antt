-- ===== src/Loops/Batches.antt =====
-- A batch of the relay that nothing interrupts (internal/core/app.go).
use shiro_distributed_system.Config.{Config}
use shiro_distributed_system.Loops.{Relay}
