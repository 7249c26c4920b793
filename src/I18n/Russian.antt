-- ===== src/I18n/Russian.antt =====
-- The Russian texts of internal/http/handlers/i18n.go, in the order of the source.
use vetka_backend_panel.Prelude.{String, List, [], ◌∷◌, ◌++◌}

unfoldable pub shell : List (String × String)
shell =
    ("page.dashboard", "Главная")
    ∷ ("page.users", "Пользователи")
    ∷ ("page.user_detail", "Пользователь")
    ∷ ("page.nodes", "Ноды")
    ∷ ("page.sessions", "Сеансы")
    ∷ ("page.node_detail", "Информация о ноде")
    ∷ ("page.node_edit", "Изменение ноды")
    ∷ ("page.node_created", "Нода создана")
    ∷ ("page.login", "Вход")
    ∷ ("brand.tagline", "Управление резервной VPN-инфраструктурой")
    ∷ ("nav.primary", "Основная навигация")
    ∷ ("nav.dashboard", "Главная")
    ∷ ("nav.users", "Пользователи")
    ∷ ("nav.nodes", "Ноды")
    ∷ ("nav.sessions", "Сеансы")
    ∷ (
      "sidebar.backend_ready",
      "Backend доступен. Проверки готовности используют локальное подключение к БД.",
    )
    ∷ ("sidebar.language", "Язык интерфейса")
    ∷ ("lang.ru", "RU")
    ∷ ("lang.en", "EN")
    ∷ ("topbar.open_navigation", "Открыть навигацию")
    ∷ ("topbar.close_dialog", "Закрыть окно")
    ∷ ("toast.dismiss", "Закрыть уведомление")
    ∷ ("qr.title", "QR-код")
    ∷ ("qr.default_title", "QR подписки")
    ∷ ("button.copy_url", "Скопировать URL")
    ∷ ("button.close", "Закрыть")
    ∷ ("button.copy", "Копировать")
    ∷ ("button.copied", "Скопировано")
    ∷ ("button.open", "Открыть")
    ∷ ("button.cancel", "Отмена")
    ∷ ("button.save", "Сохранить")
    ∷ ("button.sync_all_nodes", "Синхронизировать все ноды")
    ∷ ("button.reconcile_expired", "Проверить истёкшие подписки")
    ∷ ("status.no_display_name", "Имя не указано")
    ∷ ("status.unlimited", "Без ограничений")
    ∷ ("status.active", "Активен")
    ∷ ("status.expired", "Срок истёк")
    ∷ ("status.expires_soon", "Скоро истечёт")
    ∷ ("status.disabled", "Отключён")
    ∷ ("status.hidden", "Скрыта")
    ∷ ("status.visible", "Видима")
    ∷ ("status.enabled", "Включено")
    ∷ ("status.disabled_access", "Отключено")
    ∷ ("status.connected", "Подключена")
    ∷ ("status.planned", "Запланирована")
    ∷ ("status.unreachable", "Недоступна")
    ∷ ("status.offline", "Офлайн")
    ∷ ("status.ok", "OK")
    ∷ []

unfoldable pub lists : List (String × String)
lists =
    ("dashboard.eyebrow", "Инфраструктура")
    ∷ ("dashboard.heading", "Главная")
    ∷ (
      "dashboard.intro",
      "Следите за резервной VPN-инфраструктурой, состоянием нод и отзывом истёкших доступов.",
    )
    ∷ ("dashboard.total_users", "Всего пользователей")
    ∷ ("dashboard.active_users", "Активные пользователи")
    ∷ ("dashboard.expired_users", "Истёкшие подписки")
    ∷ ("dashboard.disabled_users", "Отключённые пользователи")
    ∷ ("dashboard.total_nodes", "Всего нод")
    ∷ ("dashboard.connected", "Подключены")
    ∷ ("dashboard.unreachable", "Недоступны")
    ∷ ("dashboard.planned", "Запланированы")
    ∷ ("dashboard.sync_errors", "Ошибки синхронизации (24ч)")
    ∷ ("dashboard.infrastructure", "Состояние инфраструктуры")
    ∷ (
      "dashboard.infrastructure_hint",
      "Актуальный статус нод, версии конфигурации и последние ошибки.",
    )
    ∷ ("dashboard.view_all_nodes", "Все ноды")
    ∷ ("dashboard.desired", "Ожидаемая")
    ∷ ("dashboard.applied", "Применённая")
    ∷ ("dashboard.last_seen", "Последняя активность")
    ∷ ("dashboard.assigned_users", "Назначено пользователей")
    ∷ ("dashboard.no_nodes", "Нод пока нет")
    ∷ (
      "dashboard.no_nodes_hint",
      "Добавьте первую запланированную ноду или подключите уже существующую.",
    )
    ∷ ("dashboard.upcoming", "Ближайшие окончания подписок")
    ∷ ("dashboard.upcoming_hint", "Время отображается в часовом поясе")
    ∷ ("dashboard.view_users", "Все пользователи")
    ∷ ("dashboard.no_upcoming", "Ближайших окончаний нет")
    ∷ ("dashboard.no_upcoming_hint", "Сейчас истечениям ничего не угрожает.")
    ∷ ("dashboard.recent_sync", "Последние синхронизации")
    ∷ ("dashboard.recent_sync_hint", "Последние попытки синхронизации Backend с Node Agent.")
    ∷ ("dashboard.timestamp", "Время")
    ∷ ("dashboard.node", "Нода")
    ∷ ("dashboard.config_version", "Версия конфигурации")
    ∷ ("dashboard.status", "Статус")
    ∷ ("dashboard.http", "HTTP")
    ∷ ("dashboard.error", "Ошибка")
    ∷ ("dashboard.no_sync_events", "Событий синхронизации пока нет")
    ∷ ("sessions.heading", "Сеансы")
    ∷ (
      "sessions.intro",
      "Наблюдайте фактические подключения VetkaNodeAgent без влияния на desired state.",
    )
    ∷ ("sessions.active_only", "Активные")
    ∷ ("sessions.include_recent", "Активные и недавние")
    ∷ ("sessions.recent_only", "Недавние")
    ∷ ("sessions.refresh", "Обновить")
    ∷ ("sessions.active_count", "Активные сеансы")
    ∷ ("sessions.unique_ips", "Уникальные IP")
    ∷ ("sessions.collectors_ok", "Коллектор OK")
    ∷ ("sessions.collectors_degraded", "Коллекторы с проблемами")
    ∷ ("sessions.status", "Статус")
    ∷ ("sessions.user", "Пользователь")
    ∷ ("sessions.node", "Нода")
    ∷ ("sessions.protocol", "Протокол")
    ∷ ("sessions.client_ip", "IP")
    ∷ ("sessions.first_seen", "Первая активность")
    ∷ ("sessions.last_seen", "Последняя активность")
    ∷ ("sessions.upload", "Входящий трафик")
    ∷ ("sessions.download", "Исходящий трафик")
    ∷ ("sessions.no_active", "Активных сеансов нет")
    ∷ ("sessions.no_recent", "Недавних сеансов нет")
    ∷ ("sessions.unknown_user", "Неизвестный пользователь")
    ∷ ("sessions.ip_unavailable_mieru", "IP недоступен для Mieru")
    ∷ ("sessions.ip_unknown", "Не определён")
    ∷ ("sessions.collector_ok", "Коллектор OK")
    ∷ ("sessions.collector_partial", "Частичная телеметрия")
    ∷ ("sessions.collector_unavailable", "Телеметрия недоступна")
    ∷ ("sessions.collector_disabled", "Телеметрия отключена")
    ∷ ("sessions.issue_missing_api_url", "Agent URL не настроен")
    ∷ ("sessions.issue_missing_node_id", "Node ID не настроен")
    ∷ ("sessions.issue_missing_node_secret", "Секрет Agent не настроен")
    ∷ ("sessions.issue_collector_warning", "Collector вернул предупреждения")
    ∷ ("sessions.issue_collector_partial", "Сбор данных выполнен частично")
    ∷ ("sessions.issue_collector_unavailable", "Данные сеансов временно недоступны")
    ∷ ("sessions.issue_collector_disabled", "Сбор данных сеансов отключён на ноде")
    ∷ (
      "sessions.partial_warning",
      "Часть нод может быть временно недоступна; остальные сеансы всё равно отображаются.",
    )
    ∷ ("sessions.node_unavailable", "Нода недоступна")
    ∷ []

unfoldable pub users : List (String × String)
users =
    ("users.eyebrow", "Управление доступом")
    ∷ ("users.heading", "Пользователи")
    ∷ ("users.intro", "Пользователи в текущем представлении")
    ∷ ("users.intro_suffix", "Создание, отзыв по сроку и назначения выполняются через SSR.")
    ∷ ("users.create", "Создать пользователя")
    ∷ ("users.search", "Поиск")
    ∷ ("users.search_placeholder", "Логин или отображаемое имя")
    ∷ ("users.filter_status", "Статус")
    ∷ ("users.filter_all", "Все")
    ∷ ("users.filter_active", "Активные")
    ∷ ("users.filter_expired", "Истёкшие")
    ∷ ("users.filter_disabled", "Отключённые")
    ∷ ("users.filter_expires_soon", "Скоро истекут")
    ∷ ("users.sort", "Сортировка")
    ∷ ("users.sort_username", "Логин")
    ∷ ("users.sort_expires_at", "Срок действия")
    ∷ ("users.sort_created_at", "Создан")
    ∷ ("users.apply", "Применить")
    ∷ ("users.table.user", "Пользователь")
    ∷ ("users.table.status", "Статус")
    ∷ ("users.table.expires_at", "Срок действия")
    ∷ ("users.table.assigned_nodes", "Назначенные ноды")
    ∷ ("users.table.quota", "Квота")
    ∷ ("users.table.token", "Токен")
    ∷ ("users.table.actions", "Действия")
    ∷ ("users.open", "Открыть")
    ∷ ("users.delete", "Удалить")
    ∷ ("users.delete_confirm", "Удалить пользователя и синхронизировать затронутые ноды?")
    ∷ ("users.no_matches", "Нет пользователей для этого фильтра")
    ∷ ("users.no_matches_hint", "Попробуйте другой фильтр или создайте пользователя.")
    ∷ ("users.create_title", "Создание пользователя")
    ∷ ("users.create_hint", "Подготовьте новую подписку")
    ∷ ("users.username", "Логин")
    ∷ ("users.display_name", "Отображаемое имя")
    ∷ ("users.expires_at", "Срок действия")
    ∷ ("users.expires_help", "Пустое значение означает бессрочный доступ. Часовой пояс:")
    ∷ ("users.quota_mb", "Квота, МБ")
    ∷ ("users.quota_help_text", "означает отсутствие ограничения в метаданных.")
    ∷ ("users.notes", "Заметки")
    ∷ ("users.enabled", "Включён")
    ∷ ("users.assign_nodes", "Назначить ноды")
    ∷ ("users.no_nodes", "Ноды пока не добавлены.")
    ∷ ("users.create_submit", "Создать пользователя")
    ∷ ("user_detail.eyebrow", "Пользователь")
    ∷ ("user_detail.sync_nodes", "Синхронизировать затронутые ноды")
    ∷ ("user_detail.enable", "Включить")
    ∷ ("user_detail.disable", "Отключить")
    ∷ ("user_detail.overview", "Обзор")
    ∷ ("user_detail.status", "Статус")
    ∷ ("user_detail.remaining", "Осталось")
    ∷ ("user_detail.subscription_token", "Токен подписки")
    ∷ ("user_detail.edit_title", "Изменение пользователя")
    ∷ (
      "user_detail.edit_hint",
      "Изменения отправляются POST-запросом, затем синхронизируются назначенные ноды.",
    )
    ∷ ("user_detail.save", "Сохранить")
    ∷ ("user_detail.subscription_links", "Ссылки подписки")
    ∷ (
      "user_detail.subscription_hint",
      "QR-коды генерируются локально в браузере. Данные никуда не отправляются.",
    )
    ∷ ("user_detail.assigned_nodes", "Назначенные ноды")
    ∷ ("user_detail.assigned_hint", "Учётные данные протоколов в обычном UI всегда замаскированы.")
    ∷ ("user_detail.assign_node", "Назначить ноду")
    ∷ ("user_detail.node", "Нода")
    ∷ ("user_detail.protocol", "Протокол")
    ∷ ("user_detail.credentials", "Учётные данные")
    ∷ ("user_detail.access", "Доступ")
    ∷ ("user_detail.node_state", "Состояние ноды")
    ∷ ("user_detail.unassign", "Отвязать")
    ∷ ("user_detail.unassign_confirm", "Отвязать ноду и синхронизировать её?")
    ∷ ("user_detail.no_assignments", "Назначений нод пока нет")
    ∷ ("user_detail.danger", "Опасная зона")
    ∷ (
      "user_detail.danger_hint",
      "Используйте осознанно: эти действия могут отозвать доступ или удалить пользователя.",
    )
    ∷ ("user_detail.disable_user", "Отключить пользователя")
    ∷ ("user_detail.delete_user", "Удалить пользователя")
    ∷ ("user_detail.assign_title", "Назначение ноды")
    ∷ ("user_detail.assign_hint", "Добавьте учётные данные протокола")
    ∷ ("user_detail.protocol_username", "Логин протокола")
    ∷ ("user_detail.protocol_password", "Пароль протокола")
    ∷ ("user_detail.generated_empty", "Будет сгенерировано автоматически")
    ∷ ("user_detail.assign_submit", "Назначить ноду")
    ∷ ("user_detail.sessions", "Сеансы пользователя")
    ∷ (
      "user_detail.sessions_hint",
      "Показывает фактическую активность по назначенным нодам без принудительных действий.",
    )
    ∷ []

unfoldable pub nodes : List (String × String)
nodes =
    ("nodes.eyebrow", "Парк нод")
    ∷ ("nodes.heading", "Ноды")
    ∷ (
      "nodes.intro",
      "Подключайте готовые агенты, планируйте новые ноды и проверяйте синхронизацию без раскрытия секретов.",
    )
    ∷ ("nodes.add", "Добавить ноду")
    ∷ ("nodes.sync_all", "Синхронизировать всё")
    ∷ ("nodes.table.node", "Нода")
    ∷ ("nodes.table.protocol", "Протокол")
    ∷ ("nodes.table.setup", "Состояние")
    ∷ ("nodes.table.enabled", "Видимость")
    ∷ ("nodes.table.versions", "Версии")
    ∷ ("nodes.table.assigned_users", "Пользователи")
    ∷ ("nodes.table.last_seen", "Последняя активность")
    ∷ ("nodes.table.last_error", "Последняя ошибка")
    ∷ ("nodes.table.actions", "Действия")
    ∷ ("nodes.no_nodes", "Нод пока нет")
    ∷ ("nodes.no_nodes_hint", "Создайте запланированную ноду или подключите существующую.")
    ∷ ("nodes.modal_add", "Добавление ноды")
    ∷ ("nodes.modal_type", "Запланированная или существующая")
    ∷ ("nodes.tab_planned", "Запланированная нода")
    ∷ ("nodes.tab_adopt", "Подключить существующую")
    ∷ ("nodes.planned_hint_prefix", "Используйте этот режим до установки")
    ∷ (
      "nodes.planned_hint_suffix",
      ". Панель создаст одноразовый секрет и команду установки без вызова",
    )
    ∷ (
      "nodes.adopt_hint_prefix",
      "Используйте этот режим для уже установленного агента. Панель проверит",
    )
    ∷ ("nodes.adopt_hint_middle", ", подтвердит")
    ∷ ("nodes.adopt_hint_suffix", "и протокол, затем синхронизирует версии.")
    ∷ ("nodes.node_id", "Node ID")
    ∷ ("nodes.node_id_generated", "Будет сгенерирован автоматически")
    ∷ ("nodes.api_url_optional", "Необязательно до установки агента")
    ∷ ("nodes.node_secret", "Секрет ноды")
    ∷ ("nodes.node_secret_generated", "Будет сгенерирован автоматически")
    ∷ ("nodes.create_planned", "Создать запланированную ноду")
    ∷ ("nodes.create_adopt", "Подключить существующую ноду")
    ∷ ("nodes.adopt_api_placeholder", "http://host:2222")
    ∷ ("node_detail.eyebrow", "Информация о ноде")
    ∷ ("node_detail.health", "Проверить")
    ∷ ("node_detail.status_action", "Статус")
    ∷ ("node_detail.sync", "Синхронизировать")
    ∷ ("node_detail.edit", "Изменить")
    ∷ ("node_detail.overview", "Обзор")
    ∷ (
      "node_detail.overview_hint",
      "Секрет ноды скрыт. Полное значение отображается только один раз при создании.",
    )
    ∷ ("node_detail.domain", "Домен")
    ∷ ("node_detail.api_url", "API URL")
    ∷ ("node_detail.setup_state", "Состояние")
    ∷ ("node_detail.desired_version", "Ожидаемая версия конфигурации")
    ∷ ("node_detail.applied_version", "Применённая версия")
    ∷ ("node_detail.last_status", "Последний статус")
    ∷ ("node_detail.last_seen", "Последняя активность")
    ∷ ("node_detail.last_sync", "Последняя синхронизация")
    ∷ ("node_detail.last_error", "Последняя ошибка")
    ∷ ("node_detail.node_secret", "Секрет ноды")
    ∷ ("node_detail.protocol_settings", "Настройки протокола")
    ∷ ("node_detail.protocol_hint", "Показываются только публичные рабочие параметры.")
    ∷ ("node_detail.ports", "Диапазон портов")
    ∷ ("node_detail.mtu", "MTU")
    ∷ ("node_detail.multiplexing", "Мультиплексирование")
    ∷ ("node_detail.handshake_mode", "Режим handshake")
    ∷ ("node_detail.traffic_pattern", "Паттерн трафика")
    ∷ ("node_detail.profile", "Профиль")
    ∷ ("node_detail.naive_port", "Порт Naive")
    ∷ ("node_detail.assigned_users", "Назначенные пользователи")
    ∷ (
      "node_detail.assigned_hint",
      "Истёкшие и отключённые пользователи остаются видимыми, чтобы операционное состояние было понятным.",
    )
    ∷ ("node_detail.user", "Пользователь")
    ∷ ("node_detail.expiration", "Срок действия")
    ∷ ("node_detail.assignment", "Назначение")
    ∷ ("node_detail.no_assigned_users", "Назначенных пользователей пока нет")
    ∷ ("node_detail.sync_history", "История синхронизации")
    ∷ (
      "node_detail.sync_history_hint",
      "Request payload не отображается; ответ очищается от секретов.",
    )
    ∷ ("node_detail.sessions", "Активные и недавние сеансы")
    ∷ (
      "node_detail.sessions_hint",
      "Read-only telemetry из VetkaNodeAgent. Этот раздел только показывает наблюдаемое состояние и не запускает синхронизацию.",
    )
    ∷ ("sessions.collector_status", "Статус collector")
    ∷ ("sessions.last_successful_collection", "Последний успешный сбор")
    ∷ ("sessions.capabilities", "Возможности collector")
    ∷ ("sessions.capability_client_ip", "Определение IP клиента")
    ∷ ("sessions.capability_per_user_activity", "Активность по пользователям")
    ∷ ("sessions.capability_traffic_counters", "Счётчики трафика")
    ∷ ("sessions.capability_first_seen", "Первое появление")
    ∷ ("sessions.capability_last_seen", "Последняя активность")
    ∷ ("node_detail.changed", "Изменения")
    ∷ ("node_detail.no_sync_history", "Истории синхронизации пока нет")
    ∷ ("node_detail.danger", "Опасная зона")
    ∷ (
      "node_detail.danger_hint_text",
      "скрывает ноду из новых подписок. Сохранённые у клиентов конфиги могут работать до следующего обновления.",
    )
    ∷ ("node_detail.delete", "Удалить ноду")
    ∷ ("node_detail.delete_confirm", "Удалить эту ноду?")
    ∷ []

unfoldable pub forms : List (String × String)
forms =
    ("node_edit.eyebrow", "Настройки ноды")
    ∷ ("node_edit.heading_prefix", "Изменение")
    ∷ ("node_edit.intro", "Обновляйте параметры подключения, не раскрывая сохранённый секрет ноды.")
    ∷ ("node_edit.back", "Назад к ноде")
    ∷ ("node_edit.validate_status", "Проверить /status")
    ∷ ("node_edit.identity", "Основные параметры")
    ∷ ("node_edit.identity_hint", "Текущее состояние ноды:")
    ∷ ("node_edit.name", "Название")
    ∷ ("node_edit.leave_secret", "Оставьте пустым, чтобы сохранить текущее значение")
    ∷ (
      "node_edit.disable_hint",
      "Отключённая нода скрывается из новых подписок. Уже сохранённые клиентские конфиги могут продолжать работать до обновления.",
    )
    ∷ ("node_edit.save", "Сохранить ноду")
    ∷ ("node_edit.danger_hint", "Это не инструмент экстренного отзыва доступа.")
    ∷ ("node_created.eyebrow", "Одноразовый секрет")
    ∷ ("node_created.heading", "Нода создана")
    ∷ (
      "node_created.intro",
      "Сохраните секрет сейчас. После закрытия этого экрана панель покажет только маску.",
    )
    ∷ ("node_created.open_detail", "Открыть ноду")
    ∷ ("node_created.back_nodes", "К списку нод")
    ∷ ("node_created.secret_handling", "Работа с секретом")
    ∷ (
      "node_created.secret_hint",
      "Эти значения показываются только один раз. Они не сохраняются в localStorage и не должны попадать в сторонние сервисы.",
    )
    ∷ ("node_created.environment_block", "Блок переменных окружения")
    ∷ ("node_created.install_command", "Команда установки")
    ∷ ("node_created.copy_all", "Скопировать всё")
    ∷ ("node_created.copy_install", "Скопировать установку")
    ∷ ("node_created.ufw_hint", "Напоминание для UFW: откройте порт только для IP Backend Panel.")
    ∷ ("login.eyebrow", "Защищённый доступ")
    ∷ ("login.username", "Логин")
    ∷ ("login.password", "Пароль")
    ∷ ("login.show", "Показать")
    ∷ ("login.hide", "Скрыть")
    ∷ ("login.submit", "Войти")
    ∷ ("flash.login_invalid", "Неверный логин или пароль")
    ∷ ("flash.operation_failed", "Операция не выполнена. Проверьте журналы Backend.")
    ∷ ("flash.internal_server_error", "Внутренняя ошибка сервера")
    ∷ ("reconcile.users_found", "Найдено пользователей")
    ∷ ("reconcile.nodes_affected", "затронуто нод")
    ∷ ("reconcile.successful_syncs", "успешных синхронизаций")
    ∷ ("reconcile.users_processed", "обработано пользователей")
    ∷ ("reconcile.errors", "ошибки")
    ∷ ("subscription.unlimited", "Подписка: без ограничений")
    ∷ ("subscription.expired_at", "Подписка истекла:")
    ∷ ("subscription.expires_at", "Срок действия до:")
    ∷ ("flash.status_ok", "Статус OK")
    ∷ ("flash.sync_ok", "Синхронизация OK")
    ∷ ("status.current_version", "Текущая версия")
    ∷ ("status.applied_version", "Применённая версия")
    ∷ ("status.users_cached", "Пользователей в кэше")
    ∷ ("status.config_version", "Версия конфигурации")
    ∷ ("status.http_status", "HTTP-статус")
    ∷ []

unfoldable pub russian : List (String × String)
unfolding shell lists users nodes forms
russian = shell ++ (lists ++ (users ++ (nodes ++ forms)))
