-- ===== src/RemoteLog/Batch/Tests.antt =====
-- The batches of main/remote_log.c at concrete lines.
use iot_sms.Base.{Bytes, codes}
use iot_sms.RemoteLog.Batch.{Source}

abbrev source : Source
source = record { device_id = codes "gate"; phone = codes "+49***4321"; seq = 3; dropped = 0 }

abbrev line : Bytes
line = codes "I (12) main: up"
