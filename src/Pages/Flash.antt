-- ===== src/Pages/Flash.antt =====
-- internal/http/handlers/handlers.go: the texts that a page shows after an action.
use Prim.Native.String.{◌++◌}
use vetka_backend_panel.Prelude.{String, List, [], ◌∷◌, ◌==◌, if◌then◌else◌}
use vetka_backend_panel.Prelude.Text.{join}
use vetka_backend_panel.I18n.{normalize_locale}

unfoldable pub locale_text : String → String → String → String
unfolding normalize_locale
locale_text locale ru en = if normalize_locale locale == "en" then en else ru

-- The second half of the cases of `flashText`.
unfoldable pub later_text : String → String → String
unfolding locale_text
later_text locale key =
    if key == "user_enabled_synced"
    then locale_text locale "Пользователь включён и синхронизирован" "User enabled and synced"
    else if key == "user_disabled_sync_failed"
    then locale_text locale "Пользователь отключён, но синхронизация нод завершилась ошибкой"
        "User disabled, but node sync failed"
    else if key == "user_disabled_synced"
    then locale_text locale "Пользователь отключён и синхронизирован" "User disabled and synced"
    else if key == "assignment_saved_sync_failed"
    then locale_text locale "Назначение сохранено, но синхронизация нод завершилась ошибкой"
        "Assignment saved, but node sync failed"
    else if key == "assignment_saved_synced"
    then locale_text locale "Назначение сохранено и синхронизировано" "Assignment saved and synced"
    else if key == "unassigned_sync_failed"
    then locale_text locale "Назначение удалено, но синхронизация нод завершилась ошибкой"
        "Unassigned, but node sync failed"
    else if key == "node_unassigned_synced"
    then locale_text locale "Нода отвязана и синхронизирована" "Node unassigned and synced"
    else if key == "node_access_enabled_sync_failed"
    then locale_text locale "Доступ к ноде включён, но синхронизация завершилась ошибкой"
        "Node access enabled, but node sync failed"
    else if key == "node_access_enabled_synced"
    then locale_text locale "Доступ к ноде включён и синхронизирован"
        "Node access enabled and synced"
    else if key == "node_access_disabled_sync_failed"
    then locale_text locale "Доступ к ноде отключён, но синхронизация завершилась ошибкой"
        "Node access disabled, but node sync failed"
    else if key == "node_access_disabled_synced"
    then locale_text locale "Доступ к ноде отключён и синхронизирован"
        "Node access disabled and synced"
    else if key == "sync_failed_for_nodes"
    then locale_text locale "Синхронизация нод завершилась ошибкой" "Sync failed for nodes"
    else if key == "affected_nodes_synced"
    then locale_text locale "Затронутые ноды синхронизированы" "Affected nodes synced"
    else if key == "expired_reconcile_failed"
    then locale_text locale "Сверка истёкших подписок завершилась с ошибками"
        "Expired users reconcile finished with errors"
    else if key == "expired_reconcile_ok"
    then locale_text locale "Сверка истёкших подписок завершена" "Expired users reconcile OK"
    else if key == "subscription_unlimited"
    then locale_text locale "Подписка: без ограничений" "Subscription: unlimited"
    else if key == "subscription_expired_at"
    then locale_text locale "Подписка истекла:" "Subscription: expired at"
    else if key == "subscription_expires_at"
    then locale_text locale "Срок действия до:" "Expires at:"
    else key

unfoldable pub flash_text : String → String → String
unfolding locale_text later_text
flash_text locale key =
    if key == "validation_failed"
    then locale_text locale "Ошибка проверки" "Validation failed"
    else if key == "node_adopted_connected"
    then locale_text locale "Существующая нода подключена и синхронизирована"
        "Existing node adopted and connected"
    else if key == "node_updated"
    then locale_text locale "Нода обновлена" "Node updated"
    else if key == "node_deleted"
    then locale_text locale "Нода удалена" "Node deleted"
    else if key == "node_not_reachable_yet"
    then locale_text locale "Нода пока недоступна" "Node is not reachable yet"
    else if key == "health_failed"
    then locale_text locale "Проверка не удалась" "Health failed"
    else if key == "health_ok"
    then locale_text locale "Проверка прошла успешно" "Health OK"
    else if key == "status_failed"
    then locale_text locale "Получение статуса не удалось" "Status failed"
    else if key == "sync_failed"
    then locale_text locale "Синхронизация не удалась" "Sync failed"
    else if key == "sync_all_failed"
    then locale_text locale "Синхронизация всех нод не удалась" "Sync all failed"
    else if key == "sync_all_ok"
    then locale_text locale "Все ноды синхронизированы" "Sync all OK"
    else if key == "invalid_expiration"
    then locale_text locale "Некорректная дата и время окончания" "Invalid expiration date and time"
    else if key == "user_saved_sync_failed"
    then locale_text locale "Пользователь сохранён, но синхронизация нод завершилась ошибкой"
        "User saved, but node sync failed"
    else if key == "user_saved_synced"
    then locale_text locale "Пользователь сохранён и синхронизирован" "User saved and synced"
    else if key == "user_deleted_sync_failed"
    then locale_text locale "Пользователь удалён, но синхронизация нод завершилась ошибкой"
        "User deleted, but node sync failed"
    else if key == "user_deleted_synced"
    then locale_text locale "Пользователь удалён и синхронизирован" "User deleted and synced"
    else if key == "user_enabled_sync_failed"
    then locale_text locale "Пользователь включён, но синхронизация нод завершилась ошибкой"
        "User enabled, but node sync failed"
    else later_text locale key

unfoldable pub flash_with_list : String → String → List String → String
unfolding flash_text join
flash_with_list locale key [] = flash_text locale key
flash_with_list locale key (i ∷ items) = flash_text locale key ++ ": " ++ join (i ∷ items) "; "

unfoldable pub subscription_text : String → String → String
unfolding locale_text
subscription_text locale key =
    if key == "group_karing"
    then "Karing"
    else if key == "group_hiddify"
    then "Hiddify"
    else if key == "group_debug"
    then locale_text locale "Отладка" "Debug"
    else if key == "karing_subscription"
    then locale_text locale "Подписка Karing" "Karing Subscription"
    else if key == "karing_json"
    then "Karing JSON"
    else if key == "hiddify_subscription"
    then locale_text locale "Подписка Hiddify" "Hiddify Subscription"
    else if key == "hiddify_json"
    then locale_text locale "Hiddify JSON (экспериментально)" "Hiddify JSON Experimental"
    else if key == "hiddify_mieru_only"
    then locale_text locale "Только Hiddify Mieru" "Hiddify Mieru Only"
    else if key == "hiddify_naive_only"
    then locale_text locale "Только Hiddify Naive" "Hiddify Naive Only"
    else if key == "raw_links"
    then locale_text locale "Сырые ссылки" "Raw Links"
    else key
